-- ===== src/JsonEx.antt =====
-- common/JsonEx.c: arrays of numbers and of ids in JSON.
pub mod Arrays
pub mod Ids
mod Tests
use my_common.Common.{
  ℕ, zero, suc, ◌+◌, ◌*◌, ◌%◌, ◌^◌, Bool, true, false, not, ◌&&◌, ◌||◌, Option, none, some, List,
  [], ◌∷◌, length, get_elem?, ltb, leb, ◌==◌, if◌then◌else◌,
}
use my_common.Common.StateCode.{
  StateCode, no_error, invalid_handle, invalid_param, allocation_failure, object_not_exist,
}
use my_common.Common.Events.{Event, acquire, release}
use my_common.Cjson.{Cjson}

-- `STATE_OK`.
abbrev pub is_ok : StateCode → Bool
is_ok no_error = true
is_ok _ = false

-- The document and the block of ids.
pub data Resource : Type 0 where
  document block : Resource

-- What JsonParseNumberArray stores in the array, and in `*puiItems`, if it gets there.
pub record Numbers : Type 0 where
  pub code : StateCode
  pub stored : List ℕ
  pub count : Option ℕ

-- What JsonParseIds returns and stores: `none` for a null pointer; and what it used.
pub record ParsedIds : Type 0 where
  pub code : StateCode
  pub ids : Option (List ℕ)
  pub count : Option ℕ
  pub events : List (Event Resource)

module _ (c : Cjson) where
  open c use {
    Value, Double, parse, print, print_unformatted, items, get_item, is_number, value_int, array,
    number, string, add_to_array, add_to_object, of_uint,
  }

  -- `has_memory` says whether cJSON_CreateString has memory.
  unfoldable pub add_string :
      Bool → Option Value → Option (List ℕ) → Option (List ℕ) → StateCode × Option Value
  add_string has_memory none field text = (invalid_handle, none)
  add_string has_memory (some v) none text = (invalid_handle, some v)
  add_string has_memory (some v) (some f) none = (invalid_handle, some v)
  add_string has_memory (some v) (some f) (some s) =
      if has_memory
      then (no_error, some (add_to_object v f (string s)))
      else (allocation_failure, some v)

  abbrev pub read_item : Option Value → StateCode × List ℕ → StateCode × List ℕ
  read_item none later = (object_not_exist, [])
  read_item (some v) later =
      if is_number v then (later.0, value_int v ∷ later.1) else (invalid_param, [])

  -- The loop of JsonParseNumberArray, `rounds` items from the `i`-th on.
  unfoldable pub read_numbers : ℕ → ℕ → List Value → StateCode × List ℕ
  read_numbers zero i vs = (no_error, [])
  read_numbers (suc rounds) i vs = read_item (get_elem? vs i) (read_numbers rounds (i + 1) vs)

  abbrev pub numbers_of : StateCode × List ℕ → ℕ → Numbers
  numbers_of (code, stored) cnt = record {
    code = code;
    stored = stored;
    count = some (if is_ok code then cnt else 0);
  }

  abbrev pub parse_array : ℕ → Option Value → Numbers
  parse_array max_items none = record { code = invalid_param; stored = []; count = none }
  parse_array max_items (some v) =
      let size = length (items v) in
      let cnt = if ltb max_items size then max_items else size in
      numbers_of (read_numbers cnt 0 (items v)) cnt

  -- `wanted` says that there is a place for the data and for the number of items.
  unfoldable pub parse_number_array : Option Value → Option (List ℕ) → Bool → ℕ → Numbers
  unfolding read_numbers
  parse_number_array none field wanted max_items = record {
    code = invalid_handle;
    stored = [];
    count = none;
  }
  parse_number_array (some v) field wanted max_items =
      if not wanted
      then record { code = invalid_handle; stored = []; count = none }
      else parse_array max_items (elim field [ none ↦ some v | some f ↦ get_item v f ])

  -- The loop of JsonAddNumberArray; `memory i` says whether the `i`-th number has memory.
  unfoldable pub add_numbers : (ℕ → Bool) → ℕ → List ℕ → Value → StateCode × Value
  add_numbers memory i [] v = (no_error, v)
  add_numbers memory i (n ∷ ns) v =
      let rest = add_numbers memory (i + 1) ns (add_to_array v (number (of_uint n))) in
      if memory i then rest else (allocation_failure, v)

  -- The value that `ptCjson` is behind the call; the array stays in it also where a number failed.
  unfoldable pub add_number_array :
      Bool
      → (ℕ → Bool)
      → Option Value
      → Option (List ℕ)
      → Option (List ℕ)
      → StateCode × Option Value
  unfolding add_numbers
  add_number_array array_ok memory none field ns = (invalid_handle, none)
  add_number_array array_ok memory (some v) field none = (invalid_handle, some v)
  add_number_array array_ok memory (some v) none (some ns) =
      let (code, w) = add_numbers memory 0 ns v in (code, some w)
  add_number_array array_ok memory (some v) (some f) (some ns) =
      if array_ok
      then (let (code, w) = add_numbers memory 0 ns array in (code, some (add_to_object v f w)))
      else (allocation_failure, some v)

  abbrev pub finish_ids : ℕ → Numbers → Option ParsedIds
  finish_ids size n =
      if ltb size (4 * length n.stored)
      then none
      else some (
          if is_ok n.code
          then record {
            code = n.code;
            ids = some n.stored;
            count = n.count;
            events = acquire document ∷ acquire block ∷ release document ∷ [];
          }
          else record {
            code = n.code;
            ids = none;
            count = some 0;
            events = acquire document ∷ acquire block ∷ release document ∷ release block ∷ [];
          })

  abbrev pub ids_of : Bool → Option Value → Option ParsedIds
  ids_of block_ok none =
      some (record { code = invalid_handle; ids = none; count = none; events = [] })
  ids_of block_ok (some v) =
      let cnt = length (items v) in
      let bytes = 4 * cnt % 2 ^ 32 in
      if cnt == 0
      then some (record {
        code = no_error;
        ids = none;
        count = some 0;
        events = acquire document ∷ release document ∷ [];
      })
      else if not block_ok
      then some (record {
        code = allocation_failure;
        ids = none;
        count = some cnt;
        events = acquire document ∷ release document ∷ [];
      })
      else finish_ids bytes (parse_number_array (some v) none true cnt)

  -- JsonParseIds of a text that is there; `wanted` says that there is a place for the results, and
  -- `block_ok` that malloc has memory. `none` is a write beyond the block, whose size is 32 bits.
  unfoldable pub parse_ids : Bool → Option (List ℕ) → Bool → Option ParsedIds
  unfolding parse_number_array
  parse_ids block_ok none wanted =
      some (record { code = invalid_handle; ids = none; count = none; events = [] })
  parse_ids block_ok (some text) wanted =
      if wanted
      then ids_of block_ok (parse text)
      else some (record { code = invalid_handle; ids = none; count = none; events = [] })

  abbrev pub print_ids : StateCode × Option Value → StateCode × Option (List ℕ)
  print_ids (code, none) = (code, none)
  print_ids (code, some v) = if is_ok code then (code, some (print v)) else (code, none)

  -- JsonMakeIds; the document is deleted behind each of its results.
  unfoldable pub make_ids : Bool → (ℕ → Bool) → Option (List ℕ) → Bool → StateCode × Option (List ℕ)
  unfolding add_number_array
  make_ids array_ok memory none wanted = (invalid_handle, none)
  make_ids array_ok memory (some ns) wanted =
      if not wanted
      then (invalid_handle, none)
      else if array_ok
      then print_ids (add_number_array true memory (some array) none (some ns))
      else (allocation_failure, none)

  abbrev pub strip_value : Option Value → StateCode × Option (List ℕ)
  strip_value none = (invalid_param, none)
  strip_value (some v) = (no_error, some (print_unformatted v))

  -- JsonStringStrip.
  unfoldable pub string_strip : Option (List ℕ) → Bool → StateCode × Option (List ℕ)
  string_strip none wanted = (invalid_handle, none)
  string_strip (some text) wanted =
      if wanted then strip_value (parse text) else (invalid_handle, none)
