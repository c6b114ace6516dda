-- ===== src/Common/Window.antt =====
-- Slots of a ring of `size` places: `n` of them from `start` on, going round at `size`.
use Prim.Native.Nat.{ℕ, zero, suc, ◌+◌, ◌-◌, ◌%◌, ◌<◌, ◌≤◌}
use mathlib.Core.Path.{◌≡◌, refl, sym, ap, ◌∙◌}
use mathlib.Core.Logic.{◌≢◌, ◌⊎◌, inl, inr}
use mathlib.Core.List.{List, [], ◌∷◌, ◌++◌}
use native.Mathlib.Nat.{
  mod-add-mod, mod-eq_of_lt, mod-eq-sub-mod, mod-lt, add-zero, zero-add, suc-add,
}
use native.Mathlib.Numerals.{add-one}
use native.Mathlib.Decide.{dec_lt}
use native.Mathlib.Omega.{arith}
use my_common.Common.Lists.{length, All}

abbrev pub window : ℕ → ℕ → ℕ → List ℕ
window size start zero = []
window size start (suc n) = start ∷ window size ((start + 1) % size) n

pub length-window : (size start n : ℕ) → length (window size start n) ≡ n
length-window size start zero = refl
length-window size start (suc n) = ap suc (length-window size ((start + 1) % size) n)

pub mod-step : (size start i : ℕ) → ((start + 1) % size + i) % size ≡ (start + suc i) % size
mod-step size start i = mod-add-mod (start + 1) size i ∙ ap (λ k. k % size) (omega arith)

-- One round at most: the remainder is the number itself, or one `size` less.
pub mod-cases :
    (a size : ℕ)
    → a < size + size
    → (a < size) × (a % size ≡ a) ⊎ (size ≤ a) × (a % size + size ≡ a)
mod-cases a size h = elim (dec_lt a size) [
  | yes p ↦ inl (p, mod-eq_of_lt p)
  | no p ↦ inr (
    omega arith,
    omega (
      arith,
      mod-eq-sub-mod {n = a} {m = size} (omega arith),
      mod-eq_of_lt {n = a - size} {m = size} (omega arith),
    ),
  )
]

-- Two places less than one round apart differ.
pub place_ne :
    {size start i j : ℕ} → start < size → i < j → j < size → (start + i) % size ≢ (start + j) % size
place_ne {size} {start} {i} {j} hs hij hj =
    omega
      (arith, mod-cases (start + i) size (omega arith), mod-cases (start + j) size (omega arith))

-- A window one longer ends in the next place.
pub window-suc :
    (size start n : ℕ)
    → start < size
    → window size start (suc n) ≡ window size start n ++ ((start + n) % size ∷ [])
window-suc size start zero h = rw (add-zero, mod-eq_of_lt h)
window-suc size start (suc n) h =
    ap (λ l. start ∷ l)
      (rw (← mod-step size start n)
        (window-suc size ((start + 1) % size) n (mod-lt (start + 1) (omega arith))))

-- Consecutive windows join.
pub window-add :
    (size start m n : ℕ)
    → start < size
    → window size start (m + n) ≡ window size start m ++ window size ((start + m) % size) n
window-add size start zero n h = rw (zero-add, add-zero, mod-eq_of_lt h)
window-add size start (suc m) n h =
    rw (suc-add, ← mod-step size start m)
      (ap (λ l. start ∷ l)
        (window-add size ((start + 1) % size) m n (mod-lt (start + 1) (omega arith))))

-- Its slots are places of the ring.
pub All-window-lt : (size start n : ℕ) → start < size → All (λ s. s < size) (window size start n)
All-window-lt size start zero h = tt
All-window-lt size start (suc n) h =
    (h, All-window-lt size ((start + 1) % size) n (mod-lt (start + 1) (omega arith)))

-- The place behind a window that leaves room is in none of its slots.
pub All-window-ne :
    (size start n k : ℕ) {x : ℕ}
    → start < size
    → n ≤ k
    → k < size
    → x ≡ (start + k) % size
    → All (λ s. s ≢ x) (window size start n)
All-window-ne size start zero k hs hn hk e = tt
All-window-ne size start (suc n) zero hs hn hk e = absurd (omega arith)
All-window-ne size start (suc n) (suc k) hs hn hk e = (
  omega (arith, place_ne {i = 0} {j = suc k} hs (omega arith) hk, first),
  All-window-ne size ((start + 1) % size) n k (mod-lt (start + 1) (omega arith)) (omega arith)
      (omega arith) (e ∙ sym (mod-step size start k)),
)
  where
    first : (start + 0) % size ≡ start
    first = rw (add-zero, mod-eq_of_lt hs)

-- The `m` slots from the `i`-th behind `origin` on.
abbrev pub part : ℕ → ℕ → ℕ → ℕ → List ℕ
part size origin i m = window size ((origin + i) % size) m

module _ {size : ℕ} (origin : ℕ) (some_slot : 0 < size) where
  -- Its first slot.
  pub part-cons :
      (i j k m : ℕ)
      → j ≡ i + 1
      → k ≡ m + 1
      → part size origin i k ≡ (origin + i) % size ∷ part size origin j m
  part-cons i j k m ej ek =
      rw (ej, ek, add-one)
        (ap (λ t. (origin + i) % size ∷ window size t m)
          (mod-add-mod (origin + i) size 1 ∙ ap (λ t. t % size) (omega arith)))

  -- Its last slot.
  pub part-snoc :
      (i j k m : ℕ)
      → j ≡ i + m
      → k ≡ m + 1
      → part size origin i k ≡ part size origin i m ++ ((origin + j) % size ∷ [])
  part-snoc i j k m ej ek =
      rw (ek, add-one)
        (window-suc size ((origin + i) % size) m (mod-lt (origin + i) some_slot)
          ∙ ap (λ t. part size origin i m ++ (t ∷ []))
              (mod-add-mod (origin + i) size m ∙ ap (λ t. t % size) (omega arith)))

  -- The slots behind the next origin.
  pub part-shift :
      (i j m : ℕ) → j ≡ i + 1 → part size ((origin + 1) % size) i m ≡ part size origin j m
  part-shift i j m e =
      ap (λ t. window size t m) (mod-add-mod (origin + 1) size i ∙ ap (λ t. t % size) (omega arith))

  -- Neighbouring parts join.
  pub part-append :
      (i j m n : ℕ)
      → j ≡ i + m
      → part size origin i m ++ part size origin j n ≡ part size origin i (m + n)
  part-append i j m n e = sym (
      window-add size ((origin + i) % size) m n (mod-lt (origin + i) some_slot)
      ∙ ap (λ t. part size origin i m ++ window size t n)
          (mod-add-mod (origin + i) size m ∙ ap (λ t. t % size) (omega arith)))
