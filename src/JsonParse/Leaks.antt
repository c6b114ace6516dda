-- ===== src/JsonParse/Leaks.antt =====
-- What MediaParseListElement of JsonParse.c leaves behind.
use my_common.Common.{
  ℕ, Bool, true, false, not, ◌&&◌, Option, none, some, List, [], ◌∷◌, if◌then◌else◌, Bool-cases,
  inl, inr, ◌≡◌, refl, subst, ◌∙◌,
}
use my_common.Common.Strings.{bytes, str_eq, str_eq_iff}
use my_common.Common.StateCode.{no_error, object_not_exist}
use my_common.Common.Events.{held_after}
use my_common.Cjson.{Cjson}
use my_common.JsonEx.{Resource, document, block}
use my_common.JsonStruct.{Bytes, Outcome, fault, done, table, parse_struct}
use my_common.JsonStruct.Load.{finish_load, load_value, parse_json_to_struct}
use my_common.JsonParse.{
  ListJsonMng, Parsing, faults, ended, find_json_list_mng_node, store_element, or_else, behind,
  parse_by, parse_list_element, store_prog_id, mo_ch_base_info, parse_specific,
  media_parse_list_element,
}
use my_common.JsonParse.Keys.{json_list}

abbrev pub same : Resource → Resource → Bool
same document document = true
same block block = true
same _ _ = false

-- What is held behind a call, or what stands for it where the call has no end.
abbrev pub left_over : Option (List Resource) → Parsing → Option (List Resource)
left_over other faults = other
left_over other (ended code m es) = held_after same es []

left_over-finish :
    (size to a : ℕ) (o : Outcome)
    → left_over (some []) (store_element size to (finish_load a o)) ≡ some []
left_over-finish size to a fault = refl
left_over-finish size to a (done no_error m) = refl
left_over-finish size to a (done _ m) = refl

left_over-behind_none :
    (other : Option (List Resource)) (p : Parsing)
    → left_over other (behind [] p) ≡ left_over other p
left_over-behind_none other faults = refl
left_over-behind_none other (ended code m es) = refl

-- "moch" is no type of the other tables.
moch_unlisted :
    (l : List ℕ) → str_eq (bytes "moch") l ≡ true → find_json_list_mng_node json_list l ≡ none
unfolding find_json_list_mng_node str_eq
moch_unlisted l y =
    subst (λ k. find_json_list_mng_node json_list k ≡ none) ((str_eq_iff (bytes "moch") l).0 y) refl

module _ (c : Cjson) where
  open c use {Value, Double, parse, get_item, is_number}

  load-balanced :
      (e : ListJsonMng) (v : Option Value) (to : ℕ) (at : Option ℕ) (m : Bytes)
      → left_over (some []) (store_element e.size to (load_value c e.key e.size v at m)) ≡ some []
  load-balanced e none to at m = refl
  load-balanced e (some v) to none m = refl
  load-balanced e (some v) to (some a) m =
      left_over-finish e.size to a (parse_struct c (table e.key) e.size v a m)

  parse_by-balanced :
      (found : Option ListJsonMng) (text : List ℕ) (to : ℕ) (at : Option ℕ) (m : Bytes)
      → left_over (some []) (parse_by c found text to at m) ≡ some []
  unfolding parse_json_to_struct
  parse_by-balanced none text to at m = refl
  parse_by-balanced (some e) text to at m = load-balanced e (parse text) to at m

  -- There is no number of the name "prog_id".
  abbrev pub lacks_number : Option Value → Bool
  lacks_number none = true
  lacks_number (some v) = not (is_number v)

  abbrev pub lacks_prog_id : Option Value → Bool
  lacks_prog_id none = false
  lacks_prog_id (some v) = lacks_number (get_item v (bytes "prog_id"))

  abbrev pub leaked : List ℕ → List ℕ → List Resource
  leaked l text =
      if str_eq (bytes "moch") l && lacks_prog_id (parse text) then document ∷ [] else []

  store_prog_id-left :
      (other : Option (List Resource)) (store : Double → ℕ → Bytes → Bytes) (v : Option Value)
      (to : ℕ) (m : Bytes)
      → left_over other
          (or_else (store_prog_id c store v to m) (λ k es. behind es (ended object_not_exist k [])))
        ≡ some (if lacks_number v then document ∷ [] else [])
  store_prog_id-left other store none to m = refl
  store_prog_id-left other store (some v) to m = elim (Bool-cases (is_number v)) [
    | inl y ↦ rw y refl
    | inr n ↦ rw n refl
  ]

  mo_ch-left :
      (other : Option (List Resource)) (store : Double → ℕ → Bytes → Bytes) (v : Option Value)
      (to : ℕ) (m : Bytes)
      → left_over other (
          or_else
            (mo_ch_base_info c store v to m)
            (λ k es. behind es (ended object_not_exist k [])))
        ≡ some (if lacks_prog_id v then document ∷ [] else [])
  mo_ch-left other store none to m = refl
  mo_ch-left other store (some v) to m =
      store_prog_id-left other store (get_item v (bytes "prog_id")) to m

  -- MediaParseListElement with nothing null leaves nothing that it acquired behind, whatever
  -- the type, the text and the memory for the struct, except the document of a text that parses
  -- for the type "moch" and has no number prog_id, unless it uses a null pointer.
  pub media_parse_list_element-left :
      (store : Double → ℕ → Bytes → Bytes) (l text : List ℕ) (to : ℕ) (at : Option ℕ) (m : Bytes)
      → left_over
          (some (leaked l text))
          (media_parse_list_element c store json_list (some l) (some text) (some to) at m)
        ≡ some (leaked l text)
  unfolding media_parse_list_element parse_specific parse_list_element
  media_parse_list_element-left store l text to at m = elim (Bool-cases (str_eq (bytes "moch") l)) [
    | inl y ↦
        rw (y, moch_unlisted l y)
          (mo_ch-left (some (if lacks_prog_id (parse text) then document ∷ [] else [])) store
            (parse text) to m)
    | inr n ↦ rw n (
        left_over-behind_none (some [])
          (parse_by c (find_json_list_mng_node json_list l) text to at m)
        ∙ parse_by-balanced (find_json_list_mng_node json_list l) text to at m)
  ]
