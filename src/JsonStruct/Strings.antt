-- ===== src/JsonStruct/Strings.antt =====
-- The string at the end of a table without a size, and string fields whose item is no string.
use my_common.Common.{
  ℕ, zero, suc, ◌+◌, ◌<◌, inl, inr, Bool, true, false, ◌&&◌, Option, none, some, ◌==◌,
  if◌then◌else◌, ◌≡◌, refl, sym, ap, ◌∙◌, arith,
}
use my_common.Common.StateCode.{no_error}
use my_common.Cjson.{Cjson}
use my_common.JsonStruct.{
  string, field_def, Fields, end, field, table, Bytes, put, zeros, Outcome, fault, done, next_if_ok,
  offset_of, name_of, copy_string, parse_found, parse_struct, parse_fields, parse_field,
}
use my_common.JsonStruct.Within.{Kept, put-off}
use my_common.JsonStruct.Bounds.{Sizes, fits_field, parse_field-Kept, parse_found-Kept}

-- The last field is a string without a size at the offset `o`, and the others end before it.
unfoldable pub ends_in_string : ℕ → Fields → Bool
unfolding fits_field
ends_in_string o end = false
ends_in_string o (field (field_def n string p zero nested k e els t) end) = p == o
ends_in_string o (field d end) = false
ends_in_string o (field d (field d' rest)) =
    fits_field d (some (offset_of d')) o && ends_in_string o (field d' rest)

-- The byte at an address behind a call, or what stands for it where the call has no end.
abbrev pub byte_after : ℕ → ℕ → Outcome → ℕ
byte_after other x fault = other
byte_after other x (done code m) = m x

next_if_ok-zero :
    (x : ℕ) (o : Outcome) (go : Bytes → Outcome)
    → byte_after 0 x o ≡ 0
    → ((m : Bytes) → m x ≡ 0 → byte_after 0 x (go m) ≡ 0)
    → byte_after 0 x (next_if_ok o go) ≡ 0
next_if_ok-zero x fault go h later = refl
next_if_ok-zero x (done no_error m) go h later = later m h
next_if_ok-zero x (done _ m) go h later = h

Kept-zero : (lo x : ℕ) (m : Bytes) (o : Outcome) → Kept lo x m o → m x ≡ 0 → byte_after 0 x o ≡ 0
Kept-zero lo x m fault k h = refl
Kept-zero lo x m (done code m') k h = k x (inr (omega arith)) ∙ h

put-zeros : (n a : ℕ) (m : Bytes) (o : ℕ) → o < n → put a (zeros n) m (a + o) ≡ 0
put-zeros zero a m o h = absurd (omega arith)
put-zeros (suc n) a m zero h =
    put-off (zeros n) (a + 1) (λ x. if x == a then 0 else m x) (a + 0) (inl (omega arith))
    ∙ ground arith
put-zeros (suc n) a m (suc o) h =
    ap (put (a + 1) (zeros n) (λ x. if x == a then 0 else m x)) (omega arith)
    ∙ put-zeros n (a + 1) (λ x. if x == a then 0 else m x) o (omega arith)

module _ (c : Cjson) (sizes : Sizes c) where
  open c use {Value, get_item_exact, value_string}

  -- A string without a size at the end of a table is made empty, whatever its item is.
  last-zero :
      (found : Option Value) (a : ℕ) (m : Bytes)
      → m a ≡ 0
      → byte_after 0 a (
          next_if_ok
            (parse_found c found (λ item. copy_string c (value_string item) 0 a m) m)
            (λ k. done no_error k))
        ≡ 0
  last-zero none a m h = h
  last-zero (some v) a m h = ground arith

  fields-zero :
      (o : ℕ) (fs : Fields) (v : Value) (a : ℕ) (m : Bytes)
      → ends_in_string o fs ≡ true
      → m (a + o) ≡ 0
      → byte_after 0 (a + o) (parse_fields c fs v a m) ≡ 0
  unfolding parse_struct ends_in_string
  fields-zero o end v a m e h = cc
  fields-zero o (field (field_def n string p zero nested k els_size els t) end) v a m e h =
      let same : o ≡ p = ground arith in
      rw same (last-zero (get_item_exact v n) (a + p) m (rw (sym same) h))
  fields-zero o (field (field_def n _ p s nested k els_size els t) end) v a m e h = cc
  fields-zero o (field d (field d' rest)) v a m e h =
      let next = some (offset_of d') in
      let first =
        parse_found c (get_item_exact v (name_of d))
          (λ item. parse_field c d next item (a + offset_of d) m) m in
      next_if_ok-zero (a + o) first (parse_fields c (field d' rest) v a)
        (Kept-zero a (a + o) m first
          (parse_found-Kept c sizes a (a + o) m (get_item_exact v (name_of d))
            (λ item. parse_field c d next item (a + offset_of d) m)
            (λ item. parse_field-Kept c sizes d next o item a m (ground arith)))
          h)
        (λ k z. fields-zero o (field d' rest) v a k (ground arith) z)

  -- By a table that ends in a string field without a size, behind other fields that end before it,
  -- the first byte of that string is 0 behind cjson_parse_json_to_struct_internal, whatever the JSON.
  pub parse_struct-ends_in_string :
      (o size : ℕ) (fs : Fields) (v : Value) (a : ℕ) (m : Bytes)
      → ends_in_string o fs ≡ true
      → o < size
      → byte_after 0 (a + o) (parse_struct c (table fs) size v a m) ≡ 0
  unfolding parse_struct
  parse_struct-ends_in_string o size fs v a m e h =
      fields-zero o fs v a (put a (zeros size) m) e (put-zeros size a m o h)
