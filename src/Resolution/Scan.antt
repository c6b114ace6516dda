-- ===== src/Resolution/Scan.antt =====
-- That a size written in digits is read back.
use my_common.Common.{
  ℕ, ◌+◌, ◌*◌, ◌-◌, ◌^◌, ◌<◌, Bool, true, false, not, ◌&&◌, Option, some, List, [], ◌∷◌, ◌++◌, ◌==◌,
  Bool-cases, inl, inr, ◌≡◌, refl, ap, ◌∙◌, arith,
}
use my_common.Resolution.{
  is_digit, is_space, skip_white, read_digits, scan_digits, scan_int, scan_size, size,
  get_size_from_string,
}

-- The value of digits by their places.
abbrev pub weight : List ℕ → ℕ
weight [] = 1
weight (c ∷ cs) = 10 * weight cs

abbrev pub decimal : List ℕ → ℕ
decimal [] = 0
decimal (c ∷ cs) = (c - 48) * weight cs + decimal cs

abbrev pub are_digits : List ℕ → Bool
are_digits [] = true
are_digits (c ∷ cs) = is_digit c && are_digits cs

abbrev pub ends_number : List ℕ → Bool
ends_number [] = true
ends_number (c ∷ cs) = not (is_digit c)

read_digits-end : (n : ℕ) (rest : List ℕ) → ends_number rest ≡ true → read_digits n rest ≡ (n, rest)
unfolding read_digits
read_digits-end n [] e = refl
read_digits-end n (c ∷ cs) e = elim (Bool-cases (is_digit c)) [
  | inl y ↦ ground arith
  | inr z ↦ rw z refl
]

place : (n d w v : ℕ) → (n * 10 + d) * w + v ≡ n * (10 * w) + (d * w + v)
place n d w v = omega arith

read_digits-decimal :
    (n : ℕ) (ds rest : List ℕ)
    → are_digits ds ≡ true
    → ends_number rest ≡ true
    → read_digits n (ds ++ rest) ≡ (n * weight ds + decimal ds, rest)
unfolding read_digits
read_digits-decimal n [] rest d e = read_digits-end n rest e ∙ ap (λ k. (k, rest)) (omega arith)
read_digits-decimal n (c ∷ cs) rest d e = elim (Bool-cases (is_digit c)) [
  | inr z ↦ ground arith
  | inl y ↦ rw y (
      read_digits-decimal (n * 10 + (c - 48)) cs rest (ground arith) e
      ∙ ap (λ k. (k, rest)) (place n (c - 48) (weight cs) (decimal cs)))
]

read_digits-all :
    (ds rest : List ℕ)
    → are_digits ds ≡ true
    → ends_number rest ≡ true
    → read_digits 0 (ds ++ rest) ≡ (decimal ds, rest)
read_digits-all ds rest d e = read_digits-decimal 0 ds rest d e ∙ ap (λ k. (k, rest)) (omega arith)

scan_digits-decimal :
    (c : ℕ) (cs rest : List ℕ)
    → are_digits (c ∷ cs) ≡ true
    → ends_number rest ≡ true
    → scan_digits false ((c ∷ cs) ++ rest)
      ≡ some (record { negative = false; number = decimal (c ∷ cs); left = rest })
unfolding scan_digits
scan_digits-decimal c cs rest d e =
    let is : is_digit c ≡ true = ground arith in
    rw is (
      ap (λ (p : ℕ × List ℕ). some (record { negative = false; number = p.0; left = p.1 }))
        (read_digits-all (c ∷ cs) rest d e))

scan_int-decimal :
    (c : ℕ) (cs rest : List ℕ)
    → are_digits (c ∷ cs) ≡ true
    → ends_number rest ≡ true
    → scan_int ((c ∷ cs) ++ rest)
      ≡ some (record { negative = false; number = decimal (c ∷ cs); left = rest })
unfolding scan_int skip_white
scan_int-decimal c cs rest d e =
    let is : is_digit c ≡ true = ground arith in
    let no_space : is_space c ≡ false = ground arith in
    let no_minus : (c == 45) ≡ false = ground arith in
    let no_plus : (c == 43) ≡ false = ground arith in
    rw (no_space, no_minus, no_plus) (scan_digits-decimal c cs rest d e)

-- Two numbers with an x between them.
scan_size-decimal :
    (c d : ℕ) (cs ds rest : List ℕ)
    → are_digits (c ∷ cs) ≡ true
    → are_digits (d ∷ ds) ≡ true
    → ends_number rest ≡ true
    → scan_size ((c ∷ cs) ++ (120 ∷ ((d ∷ ds) ++ rest)))
      ≡ some (
        record { negative = false; number = decimal (c ∷ cs); left = 120 ∷ ((d ∷ ds) ++ rest) },
        record { negative = false; number = decimal (d ∷ ds); left = rest },
      )
unfolding scan_size
scan_size-decimal c d cs ds rest hc hd e =
    rw (scan_int-decimal c cs (120 ∷ ((d ∷ ds) ++ rest)) hc refl, scan_int-decimal d ds rest hd e)
      refl

-- GetSizeFromString stores the two numbers of a text of decimal digits, an x and decimal digits,
-- whatever stands behind it that begins with no digit, if both are positive and fit an int.
pub get_size_from_string-decimal :
    (int_of : Bool → ℕ → Option ℕ) (c d : ℕ) (cs ds rest : List ℕ)
    → ((n : ℕ) → 0 < n → n < 2 ^ 31 → int_of false n ≡ some n)
    → are_digits (c ∷ cs) ≡ true
    → are_digits (d ∷ ds) ≡ true
    → ends_number rest ≡ true
    → 0 < decimal (c ∷ cs)
    → decimal (c ∷ cs) < 2 ^ 31
    → 0 < decimal (d ∷ ds)
    → decimal (d ∷ ds) < 2 ^ 31
    → get_size_from_string int_of (some ((c ∷ cs) ++ (120 ∷ ((d ∷ ds) ++ rest)))) true
      ≡ size (decimal (c ∷ cs)) (decimal (d ∷ ds))
unfolding get_size_from_string
get_size_from_string-decimal int_of c d cs ds rest ints hc hd e w0 w1 h0 h1 =
    rw
      (
        scan_size-decimal c d cs ds rest hc hd e,
        ints (decimal (c ∷ cs)) w0 w1,
        ints (decimal (d ∷ ds)) h0 h1,
      )
      refl
