-- ===== src/ReadN/Whole.antt =====
-- The loops of common/readn.c transfer the whole buffer, however the kernel splits and interrupts it.
use my_common.Common.{
  ℕ, zero, suc, ◌+◌, ◌-◌, ◌≡◌, ◌≢◌, ◌≤◌, ◌<◌, refl, sym, ap, ◌∙◌, List, [], ◌∷◌, ◌++◌, length,
  length-append, take, ◌==◌, arith, Bool-cases, inl, inr,
}
use mathlib.Core.List.{append_assoc, append-nil}
use my_common.ReadN.{
  ReadResult, bytes, read_interrupted, read_failed, WriteResult, accepted, write_interrupted,
  write_failed, transferred, read_loop, sys_readn, drop, write_loop, sys_writen,
}

-- The bytes of a course of reads, none of which meets the end of the file or an error.
abbrev pub content : List ReadResult → List ℕ
content [] = []
content (bytes bs ∷ rs) = bs ++ content rs
content (read_interrupted ∷ rs) = content rs
content (read_failed ∷ rs) = content rs

abbrev pub Flows : List ReadResult → Type 0
Flows [] = Unit
Flows (bytes bs ∷ rs) = (0 < length bs) × Flows rs
Flows (read_interrupted ∷ rs) = Flows rs
Flows (read_failed ∷ rs) = ⊥

pub append-empty : (xs ys : List ℕ) → length ys ≡ 0 → xs ++ ys ≡ xs
append-empty xs [] e = append-nil xs
append-empty xs (y ∷ ys) e = absurd (omega (arith, e))

read_loop-content :
    (n left : ℕ) (buf : List ℕ) (rs : List ReadResult)
    → Flows rs
    → length (content rs) ≡ left
    → left ≤ n
    → read_loop n left buf rs ≡ transferred n (buf ++ content rs)
unfolding read_loop
read_loop-content n left buf [] f e le = rw (append-nil buf) (ground (arith, e))
read_loop-content n left buf (bytes [] ∷ rs) f e le = absurd (omega (arith, f.0))
read_loop-content n left buf (bytes (b ∷ bs) ∷ rs) f e le = ground (
  arith,
  ne,
  read_loop-content n (left - length (b ∷ bs)) (buf ++ (b ∷ bs)) rs f.1
        (omega (arith, e, length-append bs (content rs))) (omega arith)
      ∙ ap (transferred n) (append_assoc buf (b ∷ bs) (content rs)),
)
  where
    ne : left ≢ 0
    ne = omega (arith, e)
read_loop-content n left buf (read_interrupted ∷ rs) f e le = elim (Bool-cases (left == 0)) [
  | inl z ↦ ground (arith, z, append-empty buf (content rs) (ground (arith, e, z)))
  | inr z ↦ ground (arith, z, read_loop-content n left buf rs f e le)
]
read_loop-content n left buf (read_failed ∷ rs) f e le = absurd f

-- The bytes that a course of writes takes, none of which fails or takes nothing.
abbrev pub total : List WriteResult → ℕ
total [] = 0
total (accepted k ∷ rs) = k + total rs
total (write_interrupted ∷ rs) = total rs
total (write_failed ∷ rs) = total rs

abbrev pub Drains : List WriteResult → Type 0
Drains [] = Unit
Drains (accepted k ∷ rs) = (0 < k) × Drains rs
Drains (write_interrupted ∷ rs) = Drains rs
Drains (write_failed ∷ rs) = ⊥

pub take-drop : (k : ℕ) (xs : List ℕ) → take k xs ++ drop k xs ≡ xs
take-drop zero xs = refl
take-drop (suc k) [] = refl
take-drop (suc k) (x ∷ xs) = ap (λ l. x ∷ l) (take-drop k xs)

pub length-drop : (k : ℕ) (xs : List ℕ) → length (drop k xs) ≡ length xs - k
length-drop zero xs = omega arith
length-drop (suc k) [] = omega arith
length-drop (suc k) (x ∷ xs) = omega (arith, length-drop k xs)

write_loop-content :
    (n : ℕ) (left out : List ℕ) (rs : List WriteResult)
    → Drains rs
    → total rs ≡ length left
    → write_loop n left out rs ≡ transferred n (out ++ left)
unfolding write_loop
write_loop-content n left out [] d e = ground (arith, e, append-empty out left (sym e))
write_loop-content n left out (accepted k ∷ rs) d e = ground (
  arith,
  d.0,
  e,
  write_loop-content n (drop k left) (out ++ take k left) rs d.1
        (omega (arith, e, length-drop k left))
      ∙ ap (transferred n)
          (append_assoc out (take k left) (drop k left) ∙ ap (λ l. out ++ l) (take-drop k left)),
)
write_loop-content n left out (write_interrupted ∷ rs) d e = elim (Bool-cases (length left == 0)) [
  | inl z ↦ ground (arith, z, append-empty out left (ground (arith, z)))
  | inr z ↦ ground (arith, z, write_loop-content n left out rs d e)
]
write_loop-content n left out (write_failed ∷ rs) d e = absurd d

-- However the kernel splits the bytes and interrupts the calls, as long as no call fails or comes
-- to the end of the file, sys_readn returns n with the n bytes in the buffer in order, and
-- sys_writen returns the length of the buffer with all its bytes written in order.
pub transfer-content :
    (rs : List ReadResult) (content_out : List ℕ) (ws : List WriteResult)
    → Flows rs
    → Drains ws
    → total ws ≡ length content_out
    → (sys_readn (length (content rs)) rs ≡ transferred (length (content rs)) (content rs))
      × (sys_writen content_out ws ≡ transferred (length content_out) content_out)
unfolding sys_readn sys_writen
transfer-content rs content_out ws f d e = (
  read_loop-content (length (content rs)) (length (content rs)) [] rs f refl (omega arith),
  write_loop-content (length content_out) content_out [] ws d e,
)
