-- ===== src/JsonStruct/Encode.antt =====
-- The writing side of cjson_extension.c: JSON from a struct in memory, by a table of fields.
use my_common.Common.{
  ℕ, zero, suc, ◌+◌, ◌*◌, Bool, true, false, not, Option, none, some, List, [], ◌∷◌, ◌==◌,
}
use my_common.Cjson.{Cjson}
use my_common.JsonStruct.{
  FieldType, FieldDef, field_def, Fields, end, field, Table, null, table, Bytes, name_of, offset_of,
}

-- A string without a zero in the bytes that may be read; a null pointer; or an item.
pub data Encoded (V : Type 0) : Type 0 where
  overrun nothing : Encoded V
  made : V → Encoded V

abbrev pub word_at : ℕ → Bytes → ℕ
word_at a m = m a + 256 * m (a + 1) + 65536 * m (a + 2) + 16777216 * m (a + 3)

abbrev pub bytes_at : ℕ → ℕ → Bytes → List ℕ
bytes_at zero a m = []
bytes_at (suc n) a m = m a ∷ bytes_at n (a + 1) m

abbrev pub next_byte : Bool → ℕ → Option (List ℕ) → Option (List ℕ)
next_byte true b later = some []
next_byte false b none = none
next_byte false b (some s) = some (b ∷ s)

-- The string at an address, read to its zero, which is among the next `room` bytes.
abbrev pub string_at : ℕ → ℕ → Bytes → Option (List ℕ)
string_at zero a m = none
string_at (suc room) a m = next_byte (m a == 0) (m a) (string_at room (a + 1) m)

module _ (c : Cjson) where
  open c use {
    Value, object, array, number, string, boolean, add_to_array, add_to_object, of_int, of_uint,
    of_float, of_double,
  }

  abbrev pub string_item : Option (List ℕ) → Encoded Value
  string_item none = overrun
  string_item (some s) = made (c.string s)

  -- `encode_field_to_json2`, with memory for each item.
  abbrev pub encode_element : ℕ → FieldType → ℕ → Bytes → Encoded Value
  encode_element room FieldType.int a m = made (number (of_int (word_at a m)))
  encode_element room FieldType.uint a m = made (number (of_uint (word_at a m)))
  encode_element room FieldType.float a m = made (number (of_float (bytes_at 4 a m)))
  encode_element room FieldType.double a m = made (number (of_double (bytes_at 8 a m)))
  encode_element room FieldType.string a m = string_item (string_at room a m)
  encode_element room FieldType.bool a m = made (boolean (not (word_at a m == 0)))
  encode_element room _ a m = nothing

  abbrev pub add_member : List ℕ → Encoded Value → Value → (Value → Encoded Value) → Encoded Value
  add_member name overrun root go = overrun
  add_member name nothing root go = go root
  add_member name (made v) root go = go (add_to_object root name v)

  abbrev pub add_element : Encoded Value → Value → (Value → Encoded Value) → Encoded Value
  add_element overrun root go = overrun
  add_element nothing root go = go root
  add_element (made v) root go = go (add_to_array root v)

  -- The loop over the elements of an array.
  abbrev pub encode_elements : (ℕ → Encoded Value) → ℕ → ℕ → ℕ → Value → Encoded Value
  encode_elements encode size zero a root = made root
  encode_elements encode size (suc left) a root =
      add_element (encode a) root (encode_elements encode size left (a + size))

  -- `encode_struct_to_json_internal`, its loop, and `encode_field_to_json`.
  unfoldable mutual
    pub encode_struct : ℕ → Table → ℕ → Bytes → Encoded Value
    encode_struct room null a m = made object
    encode_struct room (table fs) a m = encode_fields room fs a m object

    pub encode_fields : ℕ → Fields → ℕ → Bytes → Value → Encoded Value
    encode_fields room end a m root = made root
    encode_fields room (field d rest) a m root =
        add_member (name_of d) (encode_field room d (a + offset_of d) m) root
          (encode_fields room rest a m)

    pub encode_field : ℕ → FieldDef → ℕ → Bytes → Encoded Value
    encode_field room (field_def n FieldType.int o s nested k e els t) a m =
        encode_element room FieldType.int a m
    encode_field room (field_def n FieldType.uint o s nested k e els t) a m =
        encode_element room FieldType.uint a m
    encode_field room (field_def n FieldType.float o s nested k e els t) a m =
        encode_element room FieldType.float a m
    encode_field room (field_def n FieldType.double o s nested k e els t) a m =
        encode_element room FieldType.double a m
    encode_field room (field_def n FieldType.string o s nested k e els t) a m =
        encode_element room FieldType.string a m
    encode_field room (field_def n FieldType.bool o s nested k e els t) a m =
        encode_element room FieldType.bool a m
    encode_field room (field_def n FieldType.struct o s nested k e els t) a m =
        encode_struct room nested a m
    encode_field room (field_def n FieldType.array o s nested k e null t) a m =
        encode_elements (λ b. encode_element room t b m) e k a array
    encode_field room (field_def n FieldType.array o s nested k e (table fs) t) a m =
        encode_elements (λ b. encode_fields room fs b m object) e k a array
    encode_field room (field_def n FieldType.max o s nested k e els t) a m = nothing

  abbrev pub print_item : Encoded Value → Encoded (List ℕ)
  print_item overrun = overrun
  print_item nothing = nothing
  print_item (made v) = made (c.print v)

  -- `cjson_encode_struct_to_json` by a table that is there.
  unfoldable pub encode_struct_to_json : ℕ → Fields → ℕ → Bytes → Encoded (List ℕ)
  unfolding encode_struct
  encode_struct_to_json room fs a m = print_item (encode_fields room fs a m object)
