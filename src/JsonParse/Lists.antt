-- ===== src/JsonParse/Lists.antt =====
-- What JsonParse.c does with the tables of JsonParsePriv.h.
use my_common.Common.{
  ℕ, ◌⊎◌, ◌+◌, ◌≤◌, ◌<◌, inl, inr, Bool, true, false, ◌&&◌, Option, none, some, List, [], ◌∷◌, ltb,
  leb, if◌then◌else◌, Bool-cases, ◌≡◌, refl, ap, ◌∙◌, arith,
}
use my_common.Common.Strings.{bytes, str_eq}
use my_common.Cjson.{Cjson}
use my_common.JsonEx.{is_ok}
use my_common.JsonStruct.{Fields, table, Bytes, Outcome, fault, done, parse_struct}
use my_common.JsonStruct.Within.{Kept}
use my_common.JsonStruct.Bounds.{Sizes, fits, parse_struct-Kept}
use my_common.JsonStruct.Strings.{byte_after, ends_in_string, parse_struct-ends_in_string}
use my_common.JsonStruct.Load.{finish_load, load_value, parse_json_to_struct}
use my_common.JsonParse.{
  ListJsonMng, Parsing, faults, ended, copy_bytes, find_json_list_mng_node, store_element, parse_by,
  parse_list_element,
}
use my_common.JsonParse.Keys.{json_list, audio_param_key}

abbrev pub in_range : ℕ → ℕ → ℕ → Bool
in_range a size x = leb a x && ltb x (a + size)

abbrev pub in_block : Option ℕ → ℕ → ℕ → Bool
in_block none size x = false
in_block (some a) size x = in_range a size x

abbrev pub size_for : Option ListJsonMng → ℕ
size_for none = 0
size_for (some e) = e.size

-- A byte behind a call, or before one that has no end.
abbrev pub byte_behind : Bytes → ℕ → Parsing → ℕ
byte_behind m x faults = m x
byte_behind m x (ended code m' es) = m' x

abbrev all_fit : List ListJsonMng → Bool
all_fit [] = true
all_fit (e ∷ es) = fits e.key e.size && all_fit es

json_list-fit : all_fit json_list ≡ true
unfolding fits
json_list-fit = refl

abbrev fits_found : Option ListJsonMng → Bool
fits_found none = true
fits_found (some e) = fits e.key e.size

find-fits :
    (es : List ListJsonMng) (l : List ℕ)
    → all_fit es ≡ true
    → fits_found (find_json_list_mng_node es l) ≡ true
unfolding find_json_list_mng_node
find-fits [] l h = refl
find-fits (e ∷ es) l h = elim (Bool-cases (str_eq e.list_type l)) [
  | inl y ↦ rw y (ground arith)
  | inr n ↦ rw n (find-fits es l (ground arith))
]

out_of_range : (a size x : ℕ) → in_range a size x ≡ false → (x < a) ⊎ (a + size ≤ x)
out_of_range a size x h = elim (Bool-cases (leb a x)) [
  | inl y ↦ inr (ground arith)
  | inr n ↦ inl (ground arith)
]

module _ (c : Cjson) (sizes : Sizes c) where
  open c use {Value, Double, parse, get_item, is_number}

  -- The block is written inside, and copied to the place of the element.
  load-outside :
      (fs : Fields) (size to a : ℕ) (m : Bytes) (x : ℕ) (o : Outcome)
      → in_range a size x ≡ false
      → in_range to size x ≡ false
      → Kept a (a + size) m o
      → byte_behind m x (store_element size to (finish_load a o)) ≡ m x
  load-outside fs size to a m x fault p q k = refl
  load-outside fs size to a m x (done code m') p q k =
      let same : m' x ≡ m x = k x (out_of_range a size x p) in
      elim (Bool-cases (is_ok code)) [ inl y ↦ rw (y, q) same | inr n ↦ rw n same ]

  parse_by-outside :
      (found : Option ListJsonMng) (text : List ℕ) (to : ℕ) (at : Option ℕ) (m : Bytes) (x : ℕ)
      → fits_found found ≡ true
      → in_block at (size_for found) x ≡ false
      → in_range to (size_for found) x ≡ false
      → byte_behind m x (parse_by c found text to at m) ≡ m x
  unfolding parse_json_to_struct
  parse_by-outside none text to at m x f p q = refl
  parse_by-outside (some e) text to none m x f p q =
      elim (parse text)
        as (λ v.
          byte_behind m x (store_element e.size to (load_value c e.key e.size v none m)) ≡ m x) [
            | none ↦ refl
            | some v ↦ refl
          ]
  parse_by-outside (some e) text to (some a) m x f p q =
      elim (parse text)
        as (λ v.
          byte_behind m x (store_element e.size to (load_value c e.key e.size v (some a) m))
          ≡ m x) [
            | none ↦ refl
            | some v ↦
                load-outside e.key e.size to a m x (parse_struct c (table e.key) e.size v a m) p q
                  (parse_struct-Kept c sizes (table e.key) e.size v a m (unfold fits in f))
          ]

  -- Whatever the text and the type of the list, JsonParseListElement by the tables of
  -- JsonParsePriv.h changes no byte outside its block and the element, each as long as the
  -- struct of that type, or of no length where there is no such type, unless it uses a null
  -- pointer, if a float has four bytes and a double eight.
  pub parse_list_element-outside :
      (l text : List ℕ) (to : ℕ) (at : Option ℕ) (m : Bytes) (x : ℕ)
      → in_block at (size_for (find_json_list_mng_node json_list l)) x ≡ false
      → in_range to (size_for (find_json_list_mng_node json_list l)) x ≡ false
      → byte_behind m x (parse_list_element c json_list l text to at m) ≡ m x
  unfolding parse_list_element
  parse_list_element-outside l text to at m x p q =
      parse_by-outside (find_json_list_mng_node json_list l) text to at m x
        (find-fits json_list l json_list-fit) p q

  -- The first byte of `strQuality` where an element was stored.
  abbrev pub quality_behind : ℕ → Parsing → ℕ
  quality_behind to faults = 0
  quality_behind to (ended code m es) = if is_ok code then m (to + 32) else 0

  copied : (to a : ℕ) (m : Bytes) → copy_bytes a to 64 m (to + 32) ≡ m (a + 32)
  copied to a m =
      let low : leb to (to + 32) ≡ true = ground arith in
      let high : ltb (to + 32) (to + 64) ≡ true = ground arith in
      rw (low, high) (ap m (omega arith))

  quality-zero :
      (to a : ℕ) (o : Outcome)
      → byte_after 0 (a + 32) o ≡ 0
      → quality_behind to (store_element 64 to (finish_load a o)) ≡ 0
  quality-zero to a fault h = refl
  quality-zero to a (done code m) h = elim (Bool-cases (is_ok code)) [
    | inl y ↦ rw y (copied to a m ∙ h)
    | inr n ↦ rw n refl
  ]

  audio_ends : ends_in_string 32 audio_param_key ≡ true
  unfolding ends_in_string
  audio_ends = refl

  aenc-zero :
      (v : Option Value) (to : ℕ) (at : Option ℕ) (m : Bytes)
      → quality_behind to (store_element 64 to (load_value c audio_param_key 64 v at m)) ≡ 0
  aenc-zero none to at m = refl
  aenc-zero (some v) to none m = refl
  aenc-zero (some v) to (some a) m =
      quality-zero to a (parse_struct c (table audio_param_key) 64 v a m)
        (parse_struct-ends_in_string c sizes 32 64 audio_param_key v a m audio_ends (omega arith))

  -- Whatever the text, an element of type "aenc" that JsonParseListElement stores has the empty
  -- string for its strQuality, if a float has four bytes and a double eight.
  pub parse_list_element-quality :
      (text : List ℕ) (to : ℕ) (at : Option ℕ) (m : Bytes)
      → quality_behind to (parse_list_element c json_list (bytes "aenc") text to at m) ≡ 0
  unfolding parse_list_element find_json_list_mng_node parse_json_to_struct str_eq
  parse_list_element-quality text to at m = aenc-zero (parse text) to at m
