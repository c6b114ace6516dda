-- ===== src/Common/Distinct.antt =====
-- Lists whose elements differ in a number, such as an address or a key.
use Prim.Native.Nat.{ℕ}
use mathlib.Core.Path.{sym}
use mathlib.Core.Logic.{◌≢◌}
use mathlib.Core.List.{List, [], ◌∷◌, ◌++◌}
use my_common.Common.Lists.{All, All-append, All-right, All-without}

abbrev pub DistinctBy {ℓ} : {A : Type ℓ} → (A → ℕ) → List A → Type 0
DistinctBy g [] = Unit
DistinctBy g (x ∷ xs) = All (λ y. g y ≢ g x) xs × DistinctBy g xs

module _ {ℓ} {A : Type ℓ} (g : A → ℕ) where
  -- An element in the middle differs from all others.
  pub DistinctBy-middle :
      (xs : List A) (y : A) (ys : List A)
      → DistinctBy g (xs ++ (y ∷ ys))
      → All (λ x. g x ≢ g y) (xs ++ ys)
  DistinctBy-middle [] y ys h = h.0
  DistinctBy-middle (x ∷ xs) y ys h =
      (λ e. (All-right (λ z. g z ≢ g x) xs (y ∷ ys) h.0).0 (sym e), DistinctBy-middle xs y ys h.1)

  pub DistinctBy-without :
      (xs : List A) (y : A) (ys : List A) → DistinctBy g (xs ++ (y ∷ ys)) → DistinctBy g (xs ++ ys)
  DistinctBy-without [] y ys h = h.1
  DistinctBy-without (x ∷ xs) y ys h =
      (All-without (λ z. g z ≢ g x) xs y ys h.0, DistinctBy-without xs y ys h.1)

  -- The last element differs from all others.
  pub DistinctBy-last :
      (xs : List A) (y : A) → DistinctBy g (xs ++ (y ∷ [])) → All (λ x. g x ≢ g y) xs
  DistinctBy-last [] y h = tt
  DistinctBy-last (x ∷ xs) y h =
      (λ e. (All-right (λ z. g z ≢ g x) xs (y ∷ []) h.0).0 (sym e), DistinctBy-last xs y h.1)

  -- One more element at the end that differs from all others.
  pub DistinctBy-snoc :
      (xs : List A) (y : A)
      → All (λ x. g x ≢ g y) xs
      → DistinctBy g xs
      → DistinctBy g (xs ++ (y ∷ []))
  DistinctBy-snoc [] y out h = (tt, tt)
  DistinctBy-snoc (x ∷ xs) y out h = (
    All-append (λ z. g z ≢ g x) xs (y ∷ []) h.0 (λ e. out.0 (sym e), tt),
    DistinctBy-snoc xs y out.1 h.1,
  )
