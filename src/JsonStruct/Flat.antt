-- ===== src/JsonStruct/Flat.antt =====
-- Tables of ints and strings one behind the other, and what is relied on of the objects of cJSON.
use my_common.Common.{
  ℕ, ◌+◌, ◌^◌, ◌≤◌, ◌<◌, Bool, true, false, not, ◌&&◌, Option, none, some, List, leb, ◌==◌,
  if◌then◌else◌, ◌≡◌, refl, arith,
}
use my_common.Common.Strings.{str_eq, str_eq_iff}
use my_common.Cjson.{Cjson}
use my_common.JsonStruct.{
  FieldType, FieldDef, field_def, Fields, end, field, Bytes, next_offset, offset_of, name_of,
  string_size,
}
use my_common.JsonStruct.Encode.{string_at}

-- An object is read as it was put together, and its ints and strings are what they were made of.
pub record ObjectLaws (c : Cjson) : Type 0 where
  pub get-object : (k : List ℕ) → c.get_item_exact c.object k ≡ none
  pub get-add_new :
      (v w : c.Value) (k : List ℕ)
      → c.get_item_exact v k ≡ none
      → c.get_item_exact (c.add_to_object v k w) k ≡ some w
  pub get-add_other :
      (v w : c.Value) (k j : List ℕ)
      → str_eq k j ≡ false
      → c.get_item_exact (c.add_to_object v k w) j ≡ c.get_item_exact v j
  pub get-add_kept :
      (v w x : c.Value) (k j : List ℕ)
      → c.get_item_exact v j ≡ some x
      → c.get_item_exact (c.add_to_object v k w) j ≡ some x
  pub value_int-int : (n : ℕ) → n < 2 ^ 32 → c.value_int (c.number (c.of_int n)) ≡ n
  pub value_string-string : (s : List ℕ) → c.value_string (c.string s) ≡ some s

-- The bytes of an int, or of a string that has a size; none for all other fields.
abbrev pub flat_size : FieldDef → Option ℕ → Option ℕ
flat_size (field_def n FieldType.int o s nested k e els t) next = some 4
flat_size (field_def n FieldType.string o s nested k e els t) next =
    if string_size s o next == 0 then none else some (string_size s o next)
flat_size (field_def n _ o s nested k e els t) next = none

abbrev pub lies : ℕ → ℕ → Option ℕ → Bool
lies lo o none = false
lies lo o (some size) = leb lo o

abbrev pub end_of : ℕ → Option ℕ → ℕ
end_of o none = o
end_of o (some size) = o + size

-- The fields are ints and strings with sizes, each behind the one before.
abbrev pub is_flat : ℕ → Fields → Bool
is_flat lo end = true
is_flat lo (field d rest) =
    lies lo (offset_of d) (flat_size d (next_offset rest))
    && is_flat (end_of (offset_of d) (flat_size d (next_offset rest))) rest

abbrev pub is_new : List ℕ → Fields → Bool
is_new k end = true
is_new k (field d rest) = not (str_eq k (name_of d)) && is_new k rest

abbrev pub has_distinct_fields : Fields → Bool
has_distinct_fields end = true
has_distinct_fields (field d rest) = is_new (name_of d) rest && has_distinct_fields rest

abbrev pub is_some {ℓ} : {A : Type ℓ} → Option A → Bool
is_some none = false
is_some (some x) = true

-- The string fields have their zero inside their arrays, which the bytes that may be read contain.
abbrev pub text_fits : ℕ → FieldDef → Option ℕ → ℕ → Bytes → Bool
text_fits room (field_def n FieldType.string o s nested k e els t) next a m =
    is_some (string_at (string_size s o next) (a + o) m) && leb (string_size s o next) room
text_fits room (field_def n _ o s nested k e els t) next a m = true

abbrev pub texts_fit : ℕ → Fields → ℕ → Bytes → Bool
texts_fit room end a m = true
texts_fit room (field d rest) a m =
    text_fits room d (next_offset rest) a m && texts_fit room rest a m

pub and_parts : {x y : Bool} → (x && y) ≡ true → (x ≡ true) × (y ≡ true)
and_parts {x = true} h = (refl, h)
and_parts {x = false} h = cc

pub and-false : {y : Bool} (x : Bool) → y ≡ false → (x && y) ≡ false
and-false true h = h
and-false false h = refl

pub str_eq_self : (s : List ℕ) → str_eq s s ≡ true
str_eq_self s = (str_eq_iff s s).1 refl

pub lies-le : (lo o : ℕ) (size : Option ℕ) → lies lo o size ≡ true → lo ≤ o
lies-le lo o none h = cc
lies-le lo o (some size) h = ground arith
