-- ===== src/JsonStruct/Tests.antt =====
-- Concrete runs of cjson_extension.c.
use my_common.Common.{
  ℕ, zero, suc, ◌<◌, true, false, Option, none, some, List, [], if◌then◌else◌, Bool-cases, inl, inr,
  ap, ◌≡◌, refl, arith,
}
use my_common.Common.Strings.{bytes, str_eq}
use my_common.Common.StateCode.{no_error}
use my_common.Cjson.Trees.{
  Tree, Trees, trees, node, leaf, branch, int, text, other, find, snoc, member, add,
}
use my_common.JsonStruct.{
  FieldType, FieldDef, field_def, Fields, end, field, Table, null, table, Bytes, Outcome, fault,
  done, parse_struct,
}
use my_common.JsonStruct.Flat.{ObjectLaws, str_eq_self, has_distinct_fields}
use my_common.JsonStruct.Encode.{made, encode_struct}
use my_common.JsonStruct.RoundTrip.{encode_struct-parse_struct}

find-snoc_new :
    (ts : Trees) (k : List ℕ) (w : Tree) → find ts k ≡ none → find (snoc ts k w) k ≡ some w
find-snoc_new leaf k w h = rw (str_eq_self k) refl
find-snoc_new (branch j v ts) k w h = elim (Bool-cases (str_eq j k)) [
  | inl y ↦ ground (arith, h)
  | inr n ↦ rw n (find-snoc_new ts k w (ground (arith, h)))
]

find-snoc_other :
    (ts : Trees) (k j : List ℕ) (w : Tree) → str_eq k j ≡ false → find (snoc ts k w) j ≡ find ts j
find-snoc_other leaf k j w h = rw h refl
find-snoc_other (branch i v ts) k j w h =
    ap (λ o. if str_eq i j then some v else o) (find-snoc_other ts k j w h)

find-snoc_kept :
    (ts : Trees) (k j : List ℕ) (w x : Tree) → find ts j ≡ some x → find (snoc ts k w) j ≡ some x
find-snoc_kept leaf k j w x h = cc
find-snoc_kept (branch i v ts) k j w x h = elim (Bool-cases (str_eq i j)) [
  | inl y ↦ ground (arith, h)
  | inr n ↦ rw n (find-snoc_kept ts k j w x (ground (arith, h)))
]

member-new : (v w : Tree) (k : List ℕ) → member v k ≡ none → member (add v k w) k ≡ some w
member-new (node j ts) w k h = find-snoc_new ts k w h

member-other : (v w : Tree) (k j : List ℕ) → str_eq k j ≡ false → member (add v k w) j ≡ member v j
member-other (node i ts) w k j h = find-snoc_other ts k j w h

member-kept : (v w x : Tree) (k j : List ℕ) → member v j ≡ some x → member (add v k w) j ≡ some x
member-kept (node i ts) w x k j h = find-snoc_kept ts k j w x h

trees-ObjectLaws : ObjectLaws trees
trees-ObjectLaws = record {
  get-object = λ k. refl;
  get-add_new = member-new;
  get-add_other = member-other;
  get-add_kept = member-kept;
  value_int-int = λ n l. refl;
  value_string-string = λ s. refl;
}

abbrev byte_in : Outcome → ℕ → Option ℕ
byte_in fault x = none
byte_in (done code m) x = some (m x)

abbrev name : FieldDef
name = field_def (bytes "name") FieldType.string 0 4 null 0 0 null FieldType.max

abbrev number : FieldDef
number = field_def (bytes "number") FieldType.int 4 0 null 0 0 null FieldType.max

abbrev pairs : FieldDef
pairs = field_def (bytes "pairs") FieldType.array 8 0 null 2 4 null FieldType.int

abbrev person : Table
person = table (field name (field number (field pairs end)))

abbrev filled : Tree
filled = node other (
    branch (bytes "name") (node (text (bytes "abcdef")) leaf) (
      branch (bytes "number") (node (int 258) leaf) (
        branch (bytes "pairs")
          (node other (
            branch [] (node (int 7) leaf)
              (branch [] (node (int 9) leaf) (branch [] (node (int 11) leaf) leaf))))
          leaf)))

abbrev memory : Bytes
memory x = 255

-- A text is cut to fit with its zero, and a third item of two is left out.
test_cut : byte_in (parse_struct trees person 16 filled 100 memory) 102 ≡ some b'c'
unfolding parse_struct str_eq
test_cut = refl

test_zero : byte_in (parse_struct trees person 16 filled 100 memory) 103 ≡ some 0
unfolding parse_struct str_eq
test_zero = refl

test_number : byte_in (parse_struct trees person 16 filled 100 memory) 105 ≡ some 1
unfolding parse_struct str_eq
test_number = refl

test_item : byte_in (parse_struct trees person 16 filled 100 memory) 112 ≡ some 9
unfolding parse_struct str_eq
test_item = refl

test_behind : byte_in (parse_struct trees person 16 filled 100 memory) 116 ≡ some 255
unfolding parse_struct str_eq
test_behind = refl

-- A number where a string field is: the null `valuestring` is read.
test_no_text :
    byte_in
      (parse_struct trees person 16
        (node other (branch (bytes "name") (node (int 3) leaf) leaf))
        100
        memory)
      100
    ≡ none
unfolding parse_struct str_eq
test_no_text = refl

-- A struct with the text "ab" and the int 7.
abbrev first_fields : Fields
first_fields = field name (field number end)

abbrev stored : Bytes
stored zero = b'a'
stored (suc zero) = b'b'
stored (suc (suc (suc (suc zero)))) = 7
stored (suc _) = 0

stored-small : (x : ℕ) → stored x < 256
stored-small zero = omega arith
stored-small (suc zero) = omega arith
stored-small (suc (suc zero)) = omega arith
stored-small (suc (suc (suc zero))) = omega arith
stored-small (suc (suc (suc (suc zero)))) = omega arith
stored-small (suc (suc (suc (suc (suc x))))) = omega arith

distinct : has_distinct_fields first_fields ≡ true
unfolding str_eq
distinct = refl

encode_struct-parse_struct_example :
    (v : Tree) × (k' : Bytes) × (encode_struct trees 100 (table first_fields) 0 stored ≡ made v)
    × (parse_struct trees (table first_fields) 16 v 100 memory ≡ done no_error k')
    × (encode_struct trees 100 (table first_fields) 100 k' ≡ made v)
encode_struct-parse_struct_example =
    encode_struct-parse_struct trees trees-ObjectLaws 100 0 stored 100 stored-small first_fields 16
      memory refl distinct refl
