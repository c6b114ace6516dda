-- ===== src/Cjson/Trees.antt =====
-- Trees that fit the interface of cJSON, for concrete runs: their texts show the items of the root.
use my_common.Common.{
  ℕ, zero, suc, Bool, true, false, Option, none, some, List, [], ◌∷◌, ◌++◌, map, if◌then◌else◌, ◌≡◌,
  refl, ap,
}
use my_common.Common.Strings.{str_eq}
use my_common.Cjson.{Cjson, Laws, saturate}

pub data Kind : Type 0 where
  int : ℕ → Kind
  text : List ℕ → Kind
  yes_true other : Kind

mutual
  pub data Tree : Type 0 where
    node : Kind → Trees → Tree

  pub data Trees : Type 0 where
    leaf : Trees
    branch : List ℕ → Tree → Trees → Trees

abbrev items_of : Trees → List Tree
items_of leaf = []
items_of (branch k v ts) = v ∷ items_of ts

abbrev items : Tree → List Tree
items (node k ts) = items_of ts

abbrev pub snoc : Trees → List ℕ → Tree → Trees
snoc leaf k v = branch k v leaf
snoc (branch j w ts) k v = branch j w (snoc ts k v)

abbrev pub add : Tree → List ℕ → Tree → Tree
add (node j ts) k v = node j (snoc ts k v)

abbrev pub find : Trees → List ℕ → Option Tree
find leaf k = none
find (branch j v ts) k = let later = find ts k in if str_eq j k then some v else later

abbrev pub member : Tree → List ℕ → Option Tree
member (node j ts) k = find ts k

abbrev is_int : Tree → Bool
is_int (node (int n) ts) = true
is_int (node _ ts) = false

abbrev is_yes : Tree → Bool
is_yes (node yes_true ts) = true
is_yes (node _ ts) = false

abbrev int_of : Tree → ℕ
int_of (node (int n) ts) = n
int_of (node _ ts) = 0

abbrev text_of : Tree → Option (List ℕ)
text_of (node (text s) ts) = some s
text_of (node _ ts) = none

abbrev write_item : Tree → List ℕ → List ℕ
write_item (node (int n) ts) rest = 1 ∷ n ∷ rest
write_item (node _ ts) rest = 0 ∷ 0 ∷ rest

abbrev write_items : Trees → List ℕ
write_items leaf = []
write_items (branch k v ts) = write_item v (write_items ts)

abbrev write : Tree → List ℕ
write (node k ts) = write_items ts

abbrev read_items : List ℕ → Trees
read_items [] = leaf
read_items (a ∷ []) = leaf
read_items (zero ∷ n ∷ rest) = branch [] (node other leaf) (read_items rest)
read_items (suc a ∷ n ∷ rest) = branch [] (node (int n) leaf) (read_items rest)

-- A double that comes from an int or from an unsigned int.
pub data Number : Type 0 where
  signed unsigned : ℕ → Number

abbrev number_of : Number → ℕ
number_of (signed n) = n
number_of (unsigned n) = n

abbrev int_for : Number → ℕ
int_for (signed n) = n
int_for (unsigned n) = saturate n

abbrev pub trees : Cjson
trees = record {
  Value = Tree;
  Double = Number;
  parse = λ s. some (node other (read_items s));
  print = write;
  print_unformatted = write;
  items = items;
  get_item = member;
  get_item_exact = member;
  is_number = is_int;
  is_true = is_yes;
  value_int = int_of;
  value_double = λ v. signed (int_of v);
  value_string = text_of;
  array = node other leaf;
  object = node other leaf;
  number = λ d. node (int (int_for d)) leaf;
  string = λ s. node (text s) leaf;
  boolean = λ b. node (if b then yes_true else other) leaf;
  add_to_array = λ a v. add a [] v;
  add_to_object = add;
  of_int = signed;
  of_uint = unsigned;
  of_float = λ s. signed 0;
  of_double = λ s. signed 0;
  to_uint = number_of;
  to_float = λ d. 0 ∷ 0 ∷ 0 ∷ 0 ∷ [];
  to_double = λ d. 0 ∷ 0 ∷ 0 ∷ 0 ∷ 0 ∷ 0 ∷ 0 ∷ 0 ∷ [];
}

items_of-snoc :
    (ts : Trees) (k : List ℕ) (v : Tree) → items_of (snoc ts k v) ≡ items_of ts ++ (v ∷ [])
items_of-snoc leaf k v = refl
items_of-snoc (branch j w ts) k v = ap (λ l. w ∷ l) (items_of-snoc ts k v)

items-add : (a : Tree) (k : List ℕ) (v : Tree) → items (add a k v) ≡ items a ++ (v ∷ [])
items-add (node j ts) k v = items_of-snoc ts k v

read_items-kinds :
    (ts : Trees) → map is_int (items_of (read_items (write_items ts))) ≡ map is_int (items_of ts)
read_items-kinds leaf = refl
read_items-kinds (branch k (node (int n) us) ts) = ap (λ l. true ∷ l) (read_items-kinds ts)
read_items-kinds (branch k (node (text s) us) ts) = ap (λ l. false ∷ l) (read_items-kinds ts)
read_items-kinds (branch k (node yes_true us) ts) = ap (λ l. false ∷ l) (read_items-kinds ts)
read_items-kinds (branch k (node other us) ts) = ap (λ l. false ∷ l) (read_items-kinds ts)

read_items-ints :
    (ts : Trees) → map int_of (items_of (read_items (write_items ts))) ≡ map int_of (items_of ts)
read_items-ints leaf = refl
read_items-ints (branch k (node (int n) us) ts) = ap (λ l. n ∷ l) (read_items-ints ts)
read_items-ints (branch k (node (text s) us) ts) = ap (λ l. 0 ∷ l) (read_items-ints ts)
read_items-ints (branch k (node yes_true us) ts) = ap (λ l. 0 ∷ l) (read_items-ints ts)
read_items-ints (branch k (node other us) ts) = ap (λ l. 0 ∷ l) (read_items-ints ts)

read_items-all :
    (v : Tree)
    → (w : Tree) × (◌≡◌ {A = Option Tree} (some (node other (read_items (write v)))) (some w))
      × (map is_int (items w) ≡ map is_int (items v))
      × (map int_of (items w) ≡ map int_of (items v))
read_items-all (node k ts) =
    (node other (read_items (write_items ts)), refl, read_items-kinds ts, read_items-ints ts)

pub trees-Laws : Laws trees
trees-Laws = record {
  items-array = refl;
  items-add_to_array = λ a v. items-add a [] v;
  is_number-number = λ d. refl;
  value_int-number = λ n. refl;
  parse-print = read_items-all;
}
