-- ===== src/JsonStruct/Within.antt =====
-- Memory that changes only inside a range, for cjson_extension.c.
use my_common.Common.{
  ℕ, zero, suc, ◌+◌, ◌≤◌, ◌<◌, ◌⊎◌, inl, inr, List, [], ◌∷◌, length, ◌==◌, if◌then◌else◌, ◌≡◌, refl,
  ap, ◌∙◌, arith,
}
use my_common.Common.StateCode.{StateCode, no_error}
use my_common.JsonStruct.{Bytes, put, zeros, copy, Outcome, fault, done, next_if_ok, next_always}

-- Nothing outside [lo, hi) changes.
abbrev pub Within : ℕ → ℕ → Bytes → Bytes → Type 0
Within lo hi m m' = (x : ℕ) → (x < lo) ⊎ (hi ≤ x) → m' x ≡ m x

abbrev pub Kept : ℕ → ℕ → Bytes → Outcome → Type 0
Kept lo hi m fault = Unit {0}
Kept lo hi m (done code m') = Within lo hi m m'

pub put-off :
    (bs : List ℕ) (a : ℕ) (m : Bytes) (x : ℕ) → (x < a) ⊎ (a + length bs ≤ x) → put a bs m x ≡ m x
put-off [] a m x h = refl
put-off (b ∷ bs) a m x h =
    put-off bs (a + 1) (λ y. if y == a then b else m y) x
      (elim h [ inl l ↦ inl (omega arith) | inr l ↦ inr (omega arith) ])
    ∙ elim h [ inl l ↦ ground arith | inr l ↦ ground arith ]

pub put-Within :
    (lo hi a : ℕ) (bs : List ℕ) (m : Bytes)
    → lo ≤ a
    → a + length bs ≤ hi
    → Within lo hi m (put a bs m)
put-Within lo hi a bs m l h x out =
    put-off bs a m x (elim out [ inl o ↦ inl (omega arith) | inr o ↦ inr (omega arith) ])

pub Kept-wider :
    (lo hi lo' hi' : ℕ) (m : Bytes) (o : Outcome)
    → lo ≤ lo'
    → hi' ≤ hi
    → Kept lo' hi' m o
    → Kept lo hi m o
Kept-wider lo hi lo' hi' m fault l h k = tt
Kept-wider lo hi lo' hi' m (done code m') l h k =
    λ x out. k x (elim out [ inl o ↦ inl (omega arith) | inr o ↦ inr (omega arith) ])

pub Kept-trans :
    (lo hi : ℕ) (m m' : Bytes) (o : Outcome) → Within lo hi m m' → Kept lo hi m' o → Kept lo hi m o
Kept-trans lo hi m m' fault w k = tt
Kept-trans lo hi m m' (done code m'') w k = λ x out. k x out ∙ w x out

pub next_if_ok-Kept :
    (lo hi : ℕ) (m : Bytes) (o : Outcome) (go : Bytes → Outcome)
    → Kept lo hi m o
    → ((k : Bytes) → Kept lo hi k (go k))
    → Kept lo hi m (next_if_ok o go)
next_if_ok-Kept lo hi m fault go h later = tt
next_if_ok-Kept lo hi m (done no_error m') go h later = Kept-trans lo hi m m' (go m') h (later m')
next_if_ok-Kept lo hi m (done _ m') go h later = h

pub next_always-Kept :
    (lo hi : ℕ) (m : Bytes) (o : Outcome) (go : StateCode → Bytes → Outcome)
    → Kept lo hi m o
    → ((code : StateCode) (k : Bytes) → Kept lo hi k (go code k))
    → Kept lo hi m (next_always o go)
next_always-Kept lo hi m fault go h later = tt
next_always-Kept lo hi m (done code m') go h later =
    Kept-trans lo hi m m' (go code m') h (later code m')

pub length-zeros : (n : ℕ) → length (zeros n) ≡ n
length-zeros zero = refl
length-zeros (suc n) = ap suc (length-zeros n)

pub length-copy : (s : List ℕ) (n : ℕ) → length (copy s n) ≡ n
length-copy s zero = refl
length-copy [] (suc n) = ap suc (length-zeros n)
length-copy (x ∷ s) (suc n) = ap suc (length-copy s n)
