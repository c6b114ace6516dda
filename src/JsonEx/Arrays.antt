-- ===== src/JsonEx/Arrays.antt =====
-- What JsonParseNumberArray reads, in terms of the items of the array.
use my_common.Common.{
  ℕ, zero, suc, ◌+◌, ◌≤◌, Bool, true, ◌&&◌, Option, none, some, List, [], ◌∷◌, ◌++◌, length,
  length-append, take, get_elem?, ltb, if◌then◌else◌, Bool-cases, inl, inr, ◌≡◌, refl, sym, ap, ap₂,
  ◌∙◌, arith,
}
use my_common.Common.StateCode.{StateCode, no_error, invalid_param}
use mathlib.Core.List.{append_assoc}
use my_common.Cjson.{Cjson}
use my_common.JsonEx.{Numbers, read_item, read_numbers, numbers_of, parse_array, parse_number_array}

-- The element behind a prefix.
get_elem?-append {ℓ} :
    {A : Type ℓ} (xs ys : List A) (y : A) → get_elem? (xs ++ (y ∷ ys)) (length xs) ≡ some y
get_elem?-append [] ys y = refl
get_elem?-append (x ∷ xs) ys y = get_elem?-append xs ys y

pub length-take {ℓ} :
    {A : Type ℓ} (n : ℕ) (xs : List A)
    → length (take n xs) ≡ (if ltb n (length xs) then n else length xs)
length-take zero [] = refl
length-take zero (x ∷ xs) = ground arith
length-take (suc n) [] = ground arith
length-take (suc n) (x ∷ xs) = ground (arith, length-take n xs)

pub take_beyond {ℓ} : {A : Type ℓ} (n : ℕ) (xs : List A) → length xs ≤ n → take n xs ≡ xs
take_beyond zero [] h = refl
take_beyond zero (x ∷ xs) h = absurd (omega arith)
take_beyond (suc n) [] h = refl
take_beyond (suc n) (x ∷ xs) h = ap (λ l. x ∷ l) (take_beyond n xs (omega arith))

take_cut {ℓ} :
    {A : Type ℓ} (n : ℕ) (xs : List A)
    → take (if ltb n (length xs) then n else length xs) xs ≡ take n xs
take_cut n xs = elim (Bool-cases (ltb n (length xs))) [
  | inl y ↦ rw y refl
  | inr z ↦ rw z (take_beyond (length xs) xs (omega arith) ∙ sym (take_beyond n xs (ground arith)))
]

cut-le-length {ℓ} :
    {A : Type ℓ} (n : ℕ) (xs : List A) → (if ltb n (length xs) then n else length xs) ≤ length xs
cut-le-length n xs = ground arith

module _ (c : Cjson) where
  open c use {Value, items, get_item, is_number, value_int}

  abbrev pub are_numbers : List Value → Bool
  are_numbers [] = true
  are_numbers (v ∷ vs) = is_number v && are_numbers vs

  -- The ints of the numbers up to the first item that is none.
  abbrev pub leading_ints : List Value → List ℕ
  leading_ints [] = []
  leading_ints (v ∷ vs) =
      let later = leading_ints vs in if is_number v then value_int v ∷ later else []

  abbrev pub read_list : List Value → StateCode × List ℕ
  read_list vs = (if are_numbers vs then no_error else invalid_param, leading_ints vs)

  read_item-list :
      (v : Value) (vs : List Value) → read_item c (some v) (read_list vs) ≡ read_list (v ∷ vs)
  read_item-list v vs = elim (Bool-cases (is_number v)) [ inl y ↦ rw y refl | inr n ↦ rw n refl ]

  pub read_numbers-list :
      (k : ℕ) (xs ys : List Value)
      → k ≤ length ys
      → read_numbers c k (length xs) (xs ++ ys) ≡ read_list (take k ys)
  unfolding read_numbers
  read_numbers-list zero xs ys h = refl
  read_numbers-list (suc k) xs [] h = absurd (omega arith)
  read_numbers-list (suc k) xs (y ∷ ys) h =
      let later : read_numbers c k (length xs + 1) (xs ++ (y ∷ ys)) ≡ read_list (take k ys) =
        ap₂ (read_numbers c k) (sym (length-append xs (y ∷ []))) (sym (append_assoc xs (y ∷ []) ys))
        ∙ read_numbers-list k (xs ++ (y ∷ [])) ys (omega arith) in
      rw (get_elem?-append xs ys y, later) (read_item-list y (take k ys))

  -- What the first items of an array give.
  abbrev pub numbers_read : List Value → Numbers
  numbers_read vs = record {
    code = if are_numbers vs then no_error else invalid_param;
    stored = leading_ints vs;
    count = some (if are_numbers vs then length vs else 0);
  }

  abbrev pub numbers_in : ℕ → Option Value → Numbers
  numbers_in max_items none = record { code = invalid_param; stored = []; count = none }
  numbers_in max_items (some v) = numbers_read (take max_items (items v))

  -- The array that is meant.
  abbrev pub array_of : Value → Option (List ℕ) → Option Value
  array_of v none = some v
  array_of v (some f) = get_item v f

  numbers_of-read :
      (vs : List Value) (cnt : ℕ)
      → cnt ≡ length vs
      → numbers_of c (read_list vs) cnt ≡ numbers_read vs
  numbers_of-read vs cnt e = elim (Bool-cases (are_numbers vs)) [
    | inl y ↦ rw (y, e) refl
    | inr n ↦ rw n refl
  ]

  parse_array-numbers_in :
      (max_items : ℕ) (target : Option Value)
      → parse_array c max_items target ≡ numbers_in max_items target
  parse_array-numbers_in max_items none = refl
  parse_array-numbers_in max_items (some v) =
      let cnt = if ltb max_items (length (items v)) then max_items else length (items v) in
      ap (λ r. numbers_of c r cnt)
        (read_numbers-list cnt [] (items v) (cut-le-length max_items (items v))
          ∙ ap read_list (take_cut max_items (items v)))
      ∙ numbers_of-read (take max_items (items v)) cnt (sym (length-take max_items (items v)))

  pub parse_number_array-numbers_in :
      (v : Value) (field : Option (List ℕ)) (max_items : ℕ)
      → parse_number_array c (some v) field true max_items ≡ numbers_in max_items (array_of v field)
  unfolding parse_number_array
  parse_number_array-numbers_in v none max_items = parse_array-numbers_in max_items (some v)
  parse_number_array-numbers_in v (some f) max_items =
      parse_array-numbers_in max_items (get_item v f)
