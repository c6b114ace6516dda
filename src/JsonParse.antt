-- ===== src/JsonParse.antt =====
-- common/JsonParse/JsonParse.c: elements of lists from JSON, by the type of the list.
pub mod Keys
pub mod Lists
pub mod Leaks
mod Tests
use my_common.Common.{
  ℕ, ◌+◌, ◌-◌, Bool, true, false, ◌&&◌, Option, none, some, List, [], ◌∷◌, ◌++◌, ltb, leb,
  if◌then◌else◌,
}
use my_common.Common.Strings.{bytes, str_eq}
use my_common.Common.StateCode.{
  allocation_failure, StateCode, no_error, invalid_handle, invalid_param, object_not_exist,
}
use my_common.Common.Events.{Event, acquire, release}
use my_common.Cjson.{Cjson}
use my_common.JsonEx.{Resource, document, block, is_ok}
use my_common.JsonStruct.{Fields, Bytes}
use my_common.JsonStruct.Encode.{Encoded, overrun, nothing, made, encode_struct_to_json}
use my_common.JsonStruct.Load.{Loading, faulted, loaded, parse_json_to_struct}

-- `T_ListJsonMng`.
pub record ListJsonMng : Type 0 where
  pub list_type : List ℕ
  pub key : Fields
  pub size : ℕ

-- The use of a null pointer; or a code, the memory and what was used.
pub data Parsing : Type 0 where
  faults : Parsing
  ended : StateCode → Bytes → List (Event Resource) → Parsing

-- What becomes of `*ppstrJson`: nothing; a new string, or null where there is no memory for it; or
-- a string is copied to the address there, with its zero, whatever room there is.
pub data Placement : Type 0 where
  untouched : Placement
  new_string : Option (List ℕ) → Placement
  copied_to : ℕ → List ℕ → Placement

-- The struct has a string without a zero; or a code, and what is stored.
pub data Making : Type 0 where
  overran : Making
  result : StateCode → Placement → Making

-- Whether MOChBaseInfoBin2Json has memory for its object, its number and its text.
pub record TextMemory : Type 0 where
  pub has_object : Bool
  pub has_number : Bool
  pub has_text : Bool

-- `SAFESTRCPY(*ppstrJson, strjson, strlen(strjson) + 1)`; `none` is a null `*ppstrJson`.
abbrev pub copy_text : Option ℕ → List ℕ → Placement
copy_text none text = untouched
copy_text (some a) text = copied_to a text

-- `memcpy` of apart ranges.
abbrev pub copy_bytes : ℕ → ℕ → ℕ → Bytes → Bytes
copy_bytes from to size m x = if leb to x && ltb x (to + size) then m (from + (x - to)) else m x

unfoldable pub find_json_list_mng_node : List ListJsonMng → List ℕ → Option ListJsonMng
find_json_list_mng_node [] list_type = none
find_json_list_mng_node (e ∷ es) list_type =
    let later = find_json_list_mng_node es list_type in
    if str_eq e.list_type list_type then some e else later

abbrev pub store_element : ℕ → ℕ → Loading → Parsing
store_element size to faulted = faults
store_element size to (loaded none m es) = ended invalid_param m es
store_element size to (loaded (some a) m es) =
    ended no_error (copy_bytes a to size m) (es ++ (release block ∷ []))

-- The text of the function table of special lists, and behind them the other tables.
abbrev pub or_else : Parsing → (Bytes → List (Event Resource) → Parsing) → Parsing
or_else faults go = faults
or_else (ended code m es) go = if is_ok code then ended code m es else go m es

abbrev pub behind : List (Event Resource) → Parsing → Parsing
behind es faults = faults
behind es (ended code m es') = ended code m (es ++ es')

module _ (c : Cjson) where
  open c use {
    Value, Double, parse, print, get_item, is_number, value_double, object, number, add_to_object,
  }

  abbrev pub parse_by : Option ListJsonMng → List ℕ → ℕ → Option ℕ → Bytes → Parsing
  parse_by none text to at m = ended object_not_exist m []
  parse_by (some e) text to at m =
      store_element e.size to (parse_json_to_struct c text e.key e.size at m)

  -- JsonParseListElement with nothing null; `to` is `pData`, `at` the block that malloc gives.
  unfoldable pub parse_list_element :
      List ListJsonMng → List ℕ → List ℕ → ℕ → Option ℕ → Bytes → Parsing
  unfolding find_json_list_mng_node parse_json_to_struct
  parse_list_element entries list_type text to at m =
      parse_by (find_json_list_mng_node entries list_type) text to at m

  abbrev pub store_prog_id : (Double → ℕ → Bytes → Bytes) → Option Value → ℕ → Bytes → Parsing
  store_prog_id store none to m = ended invalid_param m (acquire document ∷ [])
  store_prog_id store (some v) to m =
      if is_number v
      then ended no_error (store (value_double v) to m) (acquire document ∷ release document ∷ [])
      else ended invalid_param m (acquire document ∷ [])

  abbrev pub mo_ch_base_info : (Double → ℕ → Bytes → Bytes) → Option Value → ℕ → Bytes → Parsing
  mo_ch_base_info store none to m = ended invalid_param m []
  mo_ch_base_info store (some v) to m = store_prog_id store (get_item v (bytes "prog_id")) to m

  -- MediaParseSpecificListElement; `store` writes the `prog_id` of a T_MOChBaseInfo.
  unfoldable pub parse_specific :
      (Double → ℕ → Bytes → Bytes) → List ℕ → List ℕ → ℕ → Bytes → Parsing
  parse_specific store list_type text to m =
      if str_eq (bytes "moch") list_type
      then mo_ch_base_info store (parse text) to m
      else ended object_not_exist m []

  -- MediaParseListElement; `none` is a null pointer.
  unfoldable pub media_parse_list_element :
      (Double → ℕ → Bytes → Bytes)
      → List ListJsonMng
      → Option (List ℕ)
      → Option (List ℕ)
      → Option ℕ
      → Option ℕ
      → Bytes
      → Parsing
  unfolding parse_specific parse_list_element
  media_parse_list_element store entries none text to at m = ended invalid_handle m []
  media_parse_list_element store entries (some l) none to at m = ended invalid_handle m []
  media_parse_list_element store entries (some l) (some s) none at m = ended invalid_handle m []
  media_parse_list_element store entries (some l) (some s) (some to) at m =
      or_else (parse_specific store l s to m)
        (λ k es. behind es (parse_list_element entries l s to at k))

  abbrev pub mo_ch_object : Bool → Double → Value
  mo_ch_object has_number prog_id =
      if has_number then add_to_object object (bytes "prog_id") (number prog_id) else object

  -- MOChBaseInfoBin2Json.
  abbrev pub make_mo_ch : TextMemory → Double → Making
  make_mo_ch memory prog_id =
      if memory.has_object
      then result no_error (
          new_string (
            if memory.has_text
            then some (print (mo_ch_object memory.has_number prog_id))
            else none))
      else result allocation_failure untouched

  -- MediaMakeSpecificListElement; `load` reads the `prog_id` of a T_MOChBaseInfo.
  unfoldable pub make_specific : (ℕ → Bytes → Double) → TextMemory → List ℕ → ℕ → Bytes → Making
  make_specific load memory list_type from m =
      if str_eq (bytes "moch") list_type
      then make_mo_ch memory (load from m)
      else result object_not_exist untouched

  abbrev pub make_text : Option ℕ → Encoded (List ℕ) → Making
  make_text to overrun = overran
  make_text to nothing = result allocation_failure untouched
  make_text to (made text) = result no_error (copy_text to text)

  abbrev pub make_by : ℕ → Option ListJsonMng → ℕ → Option ℕ → Bytes → Making
  make_by room none from to m = result object_not_exist untouched
  make_by room (some e) from to m = make_text to (encode_struct_to_json c room e.key from m)

  -- JsonMakeListElement with nothing null; `to` is `*ppstrJson`.
  unfoldable pub make_list_element : ℕ → List ListJsonMng → List ℕ → ℕ → Option ℕ → Bytes → Making
  unfolding find_json_list_mng_node encode_struct_to_json
  make_list_element room entries list_type from to m =
      make_by room (find_json_list_mng_node entries list_type) from to m

  abbrev pub or_make : Making → Making → Making
  or_make overran other = overran
  or_make (result code text) other = if is_ok code then result code text else other

  -- MediaMakeListElement; `place` is `pstrJson` with the pointer there.
  unfoldable pub media_make_list_element :
      (ℕ → Bytes → Double)
      → TextMemory
      → ℕ
      → List ListJsonMng
      → Option (List ℕ)
      → Option ℕ
      → Option (Option ℕ)
      → Bytes
      → Making
  unfolding make_specific make_list_element
  media_make_list_element load memory room entries none from place m =
      result invalid_handle untouched
  media_make_list_element load memory room entries (some l) none place m =
      result invalid_handle untouched
  media_make_list_element load memory room entries (some l) (some from) none m =
      result invalid_handle untouched
  media_make_list_element load memory room entries (some l) (some from) (some to) m =
      or_make (make_specific load memory l from m) (make_list_element room entries l from to m)
