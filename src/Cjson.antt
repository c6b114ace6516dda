-- ===== src/Cjson.antt =====
-- The calls of cJSON that JsonEx.c and cjson_extension.c make, as an interface. A value is a tree
-- of cJSON items; a call that may lack memory is given in the models by whether it has it.
pub mod Trees
use my_common.Common.{
  ℕ, ◌^◌, ◌-◌, Bool, true, Option, some, List, [], ◌∷◌, ◌++◌, map, ltb, if◌then◌else◌, ◌≡◌,
}

pub record Cjson : Type 1 where
  pub Value : Type 0
  pub Double : Type 0
  -- cJSON_Parse, cJSON_Print and cJSON_PrintUnformatted.
  pub parse : List ℕ → Option Value
  pub print : Value → List ℕ
  pub print_unformatted : Value → List ℕ
  -- `child`, with the `next` of each.
  pub items : Value → List Value
  -- cJSON_GetObjectItem and cJSON_GetObjectItemCaseSensitive.
  pub get_item : Value → List ℕ → Option Value
  pub get_item_exact : Value → List ℕ → Option Value
  -- The type is cJSON_Number, or cJSON_True.
  pub is_number : Value → Bool
  pub is_true : Value → Bool
  -- `valueint` as its 32 bits, `valuedouble`, and `valuestring`, which only strings have.
  pub value_int : Value → ℕ
  pub value_double : Value → Double
  pub value_string : Value → Option (List ℕ)
  -- The cJSON_Create functions.
  pub array : Value
  pub object : Value
  pub number : Double → Value
  pub string : List ℕ → Value
  pub boolean : Bool → Value
  -- cJSON_AddItemToArray and cJSON_AddItemToObject.
  pub add_to_array : Value → Value → Value
  pub add_to_object : Value → List ℕ → Value → Value
  -- The conversions of the language, on the 32 bits of an int and of an unsigned int, and on the
  -- bytes of a float and of a double.
  pub of_int : ℕ → Double
  pub of_uint : ℕ → Double
  pub of_float : List ℕ → Double
  pub of_double : List ℕ → Double
  pub to_uint : Double → ℕ
  pub to_float : Double → List ℕ
  pub to_double : Double → List ℕ

-- The int that cJSON keeps for a number, and what of an unsigned int it can show.
abbrev pub saturate : ℕ → ℕ
saturate n = if ltb n (2 ^ 31 - 1) then n else 2 ^ 31 - 1

-- What the two sides of the ids rely on.
pub record Laws (c : Cjson) : Type 0 where
  pub items-array : c.items c.array ≡ []
  pub items-add_to_array : (a v : c.Value) → c.items (c.add_to_array a v) ≡ c.items a ++ (v ∷ [])
  pub is_number-number : (d : c.Double) → c.is_number (c.number d) ≡ true
  pub value_int-number : (n : ℕ) → c.value_int (c.number (c.of_uint n)) ≡ saturate n
  -- A printed array of numbers is read as an array of as many numbers with the same ints.
  pub parse-print :
      (v : c.Value)
      → (w : c.Value) × (c.parse (c.print v) ≡ some w)
        × (map c.is_number (c.items w) ≡ map c.is_number (c.items v))
        × (map c.value_int (c.items w) ≡ map c.value_int (c.items v))
