-- ===== src/JsonStruct/Load.antt =====
-- `cjson_parse_json_to_struct` of cjson_extension.c: a document, and a block that malloc gives.
use my_common.Common.{ℕ, Option, none, some, List, [], ◌∷◌, if◌then◌else◌}
use my_common.Common.Events.{Event, acquire, release}
use my_common.Cjson.{Cjson}
use my_common.JsonEx.{Resource, document, block, is_ok}
use my_common.JsonStruct.{Fields, table, Bytes, Outcome, fault, done, parse_struct}

-- The use of a null pointer; or the pointer, the memory and what was used.
pub data Loading : Type 0 where
  faulted : Loading
  loaded : Option ℕ → Bytes → List (Event Resource) → Loading

abbrev pub finish_load : ℕ → Outcome → Loading
finish_load a fault = faulted
finish_load a (done code m) =
    if is_ok code
    then loaded (some a) m (acquire document ∷ acquire block ∷ release document ∷ [])
    else loaded none m (acquire document ∷ acquire block ∷ release block ∷ release document ∷ [])

module _ (c : Cjson) where
  open c use {Value, parse}

  abbrev pub load_value : Fields → ℕ → Option Value → Option ℕ → Bytes → Loading
  load_value fs size none at m = loaded none m []
  load_value fs size (some v) none m = loaded none m (acquire document ∷ release document ∷ [])
  load_value fs size (some v) (some a) m = finish_load a (parse_struct c (table fs) size v a m)

  -- `at` is the block that malloc gives, if it gives one.
  unfoldable pub parse_json_to_struct : List ℕ → Fields → ℕ → Option ℕ → Bytes → Loading
  unfolding parse_struct
  parse_json_to_struct text fs size at m = load_value fs size (parse text) at m
