-- ===== src/JsonStruct.antt =====
-- common/cjson/cjson_extension.c: structs in memory from JSON and back, by tables of fields.
pub mod Load
pub mod Encode
pub mod Contents
pub mod Flat
pub mod RoundTrip
pub mod Within
pub mod Bounds
pub mod Strings
mod Tests
use my_common.Common.{
  ℕ, zero, suc, ◌+◌, ◌*◌, ◌-◌, ◌/◌, ◌%◌, ◌^◌, Bool, true, false, Option, none, some, List, [], ◌∷◌,
  ◌++◌, ◌==◌, if◌then◌else◌,
}
use my_common.Common.StateCode.{StateCode, no_error, invalid_param}
use my_common.Cjson.{Cjson}
use my_common.JsonEx.{is_ok}

-- `CJsonFieldType`; `max` stands for CJSON_TYPE_MAX and all other numbers.
pub data FieldType : Type 0 where
  int uint float double string bool struct array max : FieldType

-- `CJsonStructFieldDef`: name, type, offset, struct_size, nested_fields, array_size, element_size,
-- element_fields, element_type. A table ends with a null name, and a pointer to one may be null.
mutual
  pub data FieldDef : Type 0 where
    field_def : List ℕ → FieldType → ℕ → ℕ → Table → ℕ → ℕ → Table → FieldType → FieldDef

  pub data Fields : Type 0 where
    end : Fields
    field : FieldDef → Fields → Fields

  pub data Table : Type 0 where
    null : Table
    table : Fields → Table

-- The byte at each address.
abbrev pub Bytes : Type 0
Bytes = ℕ → ℕ

abbrev pub put : ℕ → List ℕ → Bytes → Bytes
put a [] m = m
put a (b ∷ bs) m = put (a + 1) bs (λ x. if x == a then b else m x)

-- The 32 bits of an int, the low byte first.
abbrev pub word : ℕ → List ℕ
word n = n % 256 ∷ n / 256 % 256 ∷ n / 65536 % 256 ∷ n / 16777216 % 256 ∷ []

abbrev pub zeros : ℕ → List ℕ
zeros zero = []
zeros (suc n) = 0 ∷ zeros n

-- The bytes that `strncpy` writes.
abbrev pub copy : List ℕ → ℕ → List ℕ
copy s zero = []
copy [] (suc n) = 0 ∷ zeros n
copy (c ∷ s) (suc n) = c ∷ copy s n

-- The use of a null pointer, or a code and the memory.
pub data Outcome : Type 0 where
  fault : Outcome
  done : StateCode → Bytes → Outcome

-- Going on where the code is STATE_CODE_NO_ERROR.
abbrev pub next_if_ok : Outcome → (Bytes → Outcome) → Outcome
next_if_ok fault go = fault
next_if_ok (done code m) go = if is_ok code then go m else done code m

-- Going on with whatever code.
abbrev pub next_always : Outcome → (StateCode → Bytes → Outcome) → Outcome
next_always fault go = fault
next_always (done code m) go = go code m

abbrev pub name_of : FieldDef → List ℕ
name_of
      (field_def name type offset struct_size nested array_size element_size elements
        element_type) =
    name

abbrev pub offset_of : FieldDef → ℕ
offset_of
      (field_def name type offset struct_size nested array_size element_size elements
        element_type) =
    offset

-- The offset of the definition behind, if that has a name.
abbrev pub next_offset : Fields → Option ℕ
next_offset end = none
next_offset (field d rest) = some (offset_of d)

-- The size of a string's array: as given, or up to the next field.
abbrev pub string_size : ℕ → ℕ → Option ℕ → ℕ
string_size zero offset none = 0
string_size zero offset (some next) = (next + 2 ^ 64 - offset) % 2 ^ 64
string_size (suc n) offset next = suc n

abbrev pub is_empty {ℓ} : {A : Type ℓ} → List A → Bool
is_empty [] = true
is_empty (x ∷ xs) = false

module _ (c : Cjson) where
  open c use {
    Value, items, get_item_exact, is_true, value_int, value_double, value_string, to_uint, to_float,
    to_double,
  }

  abbrev pub bool_word : Value → List ℕ
  bool_word v = word (if is_true v then 1 else 0)

  -- `parse_json_field2`.
  abbrev pub parse_element : FieldType → Value → ℕ → Bytes → Outcome
  parse_element int v a m = done no_error (put a (word (value_int v)) m)
  parse_element uint v a m = done no_error (put a (word (to_uint (value_double v))) m)
  parse_element float v a m = done no_error (put a (to_float (value_double v)) m)
  parse_element double v a m = done no_error (put a (to_double (value_double v)) m)
  parse_element bool v a m = done no_error (put a (bool_word v) m)
  parse_element _ v a m = done invalid_param m

  abbrev pub copy_string : Option (List ℕ) → ℕ → ℕ → Bytes → Outcome
  copy_string s zero a m = done no_error (put a (0 ∷ []) m)
  copy_string none (suc n) a m = fault
  copy_string (some s) (suc n) a m = done no_error (put a (copy s n ++ (0 ∷ [])) m)

  -- The loop over the items of an array of structs: at most `limit` of them.
  abbrev pub parse_structs :
      (Value → ℕ → Bytes → Outcome) → ℕ → ℕ → List Value → ℕ → Bytes → Outcome
  parse_structs parse size zero vs a m = done no_error m
  parse_structs parse size (suc limit) [] a m = done no_error m
  parse_structs parse size (suc limit) (v ∷ vs) a m =
      next_if_ok (parse v a m) (parse_structs parse size limit vs (a + size))

  -- The same over an array of scalars; the code is that of the last item.
  abbrev pub parse_scalars : FieldType → ℕ → ℕ → List Value → ℕ → StateCode → Bytes → Outcome
  parse_scalars type size zero vs a code m = done code m
  parse_scalars type size (suc limit) [] a code m = done code m
  parse_scalars type size (suc limit) (v ∷ vs) a code m =
      next_always (parse_element type v a m) (parse_scalars type size limit vs (a + size))

  abbrev pub parse_found : Option Value → (Value → Outcome) → Bytes → Outcome
  parse_found none parse m = done no_error m
  parse_found (some v) parse m = parse v

  -- `cjson_parse_json_to_struct_internal`, its loop, and `parse_json_field`.
  unfoldable mutual
    pub parse_struct : Table → ℕ → Value → ℕ → Bytes → Outcome
    parse_struct null size v a m = fault
    parse_struct (table fs) size v a m = parse_fields fs v a (put a (zeros size) m)

    pub parse_fields : Fields → Value → ℕ → Bytes → Outcome
    parse_fields end v a m = done no_error m
    parse_fields (field d rest) v a m =
        next_if_ok
          (parse_found (get_item_exact v (name_of d))
            (λ item. parse_field d (next_offset rest) item (a + offset_of d) m) m)
          (parse_fields rest v a)

    pub parse_field : FieldDef → Option ℕ → Value → ℕ → Bytes → Outcome
    parse_field
          (field_def name int offset struct_size nested array_size element_size elements
            element_type)
          next v a m =
        parse_element int v a m
    parse_field
          (field_def name uint offset struct_size nested array_size element_size elements
            element_type)
          next v a m =
        parse_element uint v a m
    parse_field
          (field_def name float offset struct_size nested array_size element_size elements
            element_type)
          next v a m =
        parse_element float v a m
    parse_field
          (field_def name double offset struct_size nested array_size element_size elements
            element_type)
          next v a m =
        parse_element double v a m
    parse_field
          (field_def name bool offset struct_size nested array_size element_size elements
            element_type)
          next v a m =
        parse_element bool v a m
    parse_field
          (field_def name string offset struct_size nested array_size element_size elements
            element_type)
          next v a m =
        copy_string (value_string v) (string_size struct_size offset next) a m
    parse_field
          (field_def name struct offset struct_size nested array_size element_size elements
            element_type)
          next v a m =
        if is_empty (items v) then done invalid_param m else parse_struct nested struct_size v a m
    parse_field
          (field_def name array offset struct_size nested array_size element_size null element_type)
          next v a m =
        if is_empty (items v)
        then done invalid_param m
        else parse_scalars element_type element_size array_size (items v) a no_error m
    parse_field
          (field_def name array offset struct_size nested array_size element_size
            (table fs)
            element_type)
          next v a m =
        if is_empty (items v)
        then done invalid_param m
        else parse_structs (λ w b k. parse_fields fs w b (put b (zeros element_size) k))
            element_size array_size (items v) a m
    parse_field
          (field_def name max offset struct_size nested array_size element_size elements
            element_type)
          next v a m =
        done invalid_param m
