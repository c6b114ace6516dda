-- ===== src/Ctos/Halves.antt =====
-- The arithmetic of common/ctos.c on two halves against the arithmetic on 64-bit numbers.
use my_common.Common.{
  ℕ, zero, suc, ◌+◌, ◌*◌, ◌/◌, ◌%◌, ◌^◌, ◌≡◌, ◌<◌, sym, ap, ap₂, ◌∙◌, ltb, leb, ◌==◌, if◌then◌else◌,
  arith,
}
use native.Mathlib.Nat.{
  add-mul, mod-mod, mod-eq_of_lt, div-le_self, div-div-eq-div-mul, pow-succ', mul_assoc,
  add-mul-mod_self_left,
}
use my_common.Common.Words.{u64_mod, mul64, add64, sub64}
use my_common.Ctos.{
  U64, i64_equal, i64_greater, i64_less, i64_greater_or_equal, i64_less_or_equal, i64_is_zero,
  i64_add_u32, join, split, i64_add, i64_sub_u32, i64_sub, i64_mul_u32, i64_mul, i64_div_u32,
  i64_div, shift_right_one, shift_left_one, i64_shift_right, i64_shift_left,
}

-- Both halves are 32-bit words.
pub record IsWord (a : U64) : Type 0 where
  pub msw_lt : a.msw < 2 ^ 32
  pub lsw_lt : a.lsw < 2 ^ 32

abbrev pub value : U64 → ℕ
value a = a.msw * 2 ^ 32 + a.lsw

-- The number that the code shows, when it has 64 bits.
pub join-value : (a : U64) → IsWord a → join a ≡ value a
join-value a w = omega (arith, w.msw_lt, w.lsw_lt)

split-value : (v : ℕ) → value (split v) ≡ v % 2 ^ 64
split-value v = omega arith

split-IsWord : (v : ℕ) → IsWord (split v)
split-IsWord v = record { msw_lt = omega arith; lsw_lt = omega arith }

-- On values whose halves are 32-bit words, the six comparisons of os_i64_* are those of the
-- 64-bit numbers.
pub compare-value :
    (a b : U64)
    → IsWord a
    → IsWord b
    → (i64_equal a b ≡ (value a == value b))
      × (i64_greater a b ≡ ltb (value b) (value a))
      × (i64_less a b ≡ ltb (value a) (value b))
      × (i64_greater_or_equal a b ≡ leb (value b) (value a))
      × (i64_less_or_equal a b ≡ leb (value a) (value b))
      × (i64_is_zero a ≡ (value a == 0))
unfolding i64_equal i64_greater i64_less i64_greater_or_equal i64_less_or_equal i64_is_zero
compare-value a b wa wb = (
  ground (arith, wa.lsw_lt, wb.lsw_lt),
  ground (arith, wa.lsw_lt, wb.lsw_lt),
  ground (arith, wa.lsw_lt, wb.lsw_lt),
  ground (arith, wa.lsw_lt, wb.lsw_lt),
  ground (arith, wa.lsw_lt, wb.lsw_lt),
  ground (arith, wa.lsw_lt, wb.lsw_lt),
)

i64_add_u32-value :
    (a : U64) (v : ℕ) → IsWord a → v < 2 ^ 32 → value (i64_add_u32 a v) ≡ add64 (value a) v
unfolding i64_add_u32
i64_add_u32-value a v w l = ground (arith, w.msw_lt, w.lsw_lt, l)

i64_sub-value : (a b : U64) → IsWord a → IsWord b → value (i64_sub a b) ≡ sub64 (value a) (value b)
unfolding i64_sub
i64_sub-value a b wa wb = ground (arith, wa.msw_lt, wa.lsw_lt, wb.msw_lt, wb.lsw_lt)

i64_sub_u32-value :
    (a : U64) (v : ℕ) → IsWord a → v < 2 ^ 32 → value (i64_sub_u32 a v) ≡ sub64 (value a) v
unfolding i64_sub_u32
i64_sub_u32-value a v w l = ground (arith, w.msw_lt, w.lsw_lt, l)

-- On values whose halves are 32-bit words, os_i64_addU32 with its carry from the top bits,
-- os_i64_sub and os_i64_subU32 with their borrow are addition and subtraction modulo 2^64.
pub carry-value :
    (a b : U64) (v : ℕ)
    → IsWord a
    → IsWord b
    → v < 2 ^ 32
    → (value (i64_add_u32 a v) ≡ add64 (value a) v)
      × (value (i64_sub a b) ≡ sub64 (value a) (value b))
      × (value (i64_sub_u32 a v) ≡ sub64 (value a) v)
carry-value a b v wa wb l =
    (i64_add_u32-value a v wa l, i64_sub-value a b wa wb, i64_sub_u32-value a v wa l)

quotient-value : (a : U64) (d : ℕ) → IsWord a → value (split (join a / d)) ≡ value a / d
quotient-value a d w =
    split-value (join a / d)
    ∙ mod-eq_of_lt {m = u64_mod} (omega (arith, div-le_self (join a) d))
    ∙ ap (λ x. x / d) (join-value a w)

-- On values whose halves are 32-bit words, os_i64_add, os_i64_mul, os_i64_mulU32, os_i64_div and
-- os_i64_divU32 are the operations modulo 2^64, with 0 for a division by zero.
wide-value :
    (a b : U64) (v : ℕ)
    → IsWord a
    → IsWord b
    → v < 2 ^ 32
    → (value (i64_add a b) ≡ add64 (value a) (value b))
      × (value (i64_mul a b) ≡ mul64 (value a) (value b))
      × (value (i64_mul_u32 a v) ≡ mul64 (value a) v)
      × (value (i64_div a b) ≡ (if value b == 0 then 0 else value a / value b))
      × (value (i64_div_u32 a v) ≡ (if v == 0 then 0 else value a / v))
unfolding i64_add i64_mul i64_mul_u32 i64_div i64_div_u32
wide-value a b v wa wb l = (
  split-value (add64 (join a) (join b))
      ∙ mod-mod (join a + join b) u64_mod
      ∙ ap₂ add64 (join-value a wa) (join-value b wb),
  split-value (mul64 (join a) (join b))
      ∙ mod-mod (join a * join b) u64_mod
      ∙ ap₂ mul64 (join-value a wa) (join-value b wb),
  split-value (mul64 (join a) v)
      ∙ mod-mod (join a * v) u64_mod
      ∙ ap (λ x. mul64 x v) (join-value a wa),
  ground (arith, wb.lsw_lt, wb.msw_lt, quotient-value a (join b) wa, join-value b wb),
  ground (arith, quotient-value a v wa),
)

-- One round halves, or doubles modulo 2^64.
shift_right_one-value :
    (a : U64) → IsWord a → IsWord (shift_right_one a) × (value (shift_right_one a) ≡ value a / 2)
shift_right_one-value a w = (
  record { msw_lt = omega (arith, w.msw_lt); lsw_lt = ground (arith, w.lsw_lt) },
  ground (arith, w.msw_lt, w.lsw_lt),
)

shift_left_one-value :
    (a : U64)
    → IsWord a
    → IsWord (shift_left_one a) × (value (shift_left_one a) ≡ value a * 2 % 2 ^ 64)
shift_left_one-value a w = (
  record { msw_lt = ground (arith, w.msw_lt); lsw_lt = omega arith },
  ground (arith, w.msw_lt, w.lsw_lt),
)

mod-mul_mod : (a b : ℕ) → a % u64_mod * b % u64_mod ≡ a * b % u64_mod
mod-mul_mod a b = sym (
    ap (λ x. x % u64_mod)
      (ap (λ x. x * b) {x = a} {y = a % u64_mod + u64_mod * (a / u64_mod)} (omega arith)
        ∙ add-mul (a % u64_mod) (u64_mod * (a / u64_mod)) b
        ∙ ap (λ x. a % u64_mod * b + x) (mul_assoc u64_mod (a / u64_mod) b))
    ∙ add-mul-mod_self_left (a % u64_mod * b) u64_mod (a / u64_mod * b))

double_then : (v n : ℕ) → v * 2 % u64_mod * 2 ^ n % u64_mod ≡ v * 2 ^ suc n % u64_mod
double_then v n =
    mod-mul_mod (v * 2) (2 ^ n)
    ∙ ap (λ x. x % u64_mod) (mul_assoc v 2 (2 ^ n) ∙ ap (λ x. v * x) (sym (pow-succ' 2 n)))

-- On values whose halves are 32-bit words, the loops of os_i64_shift_right and os_i64_shift_left
-- divide by the power of two and multiply by it modulo 2^64.
shift-value :
    (a : U64) (n : ℕ)
    → IsWord a
    → (value (i64_shift_right a n) ≡ value a / 2 ^ n)
      × (value (i64_shift_left a n) ≡ value a * 2 ^ n % 2 ^ 64)
unfolding i64_shift_right i64_shift_left
shift-value a zero w = (ground (arith, w.msw_lt, w.lsw_lt), omega (arith, w.msw_lt, w.lsw_lt))
shift-value a (suc n) w =
    let (wr, er) = shift_right_one-value a w in
    let (wl, el) = shift_left_one-value a w in
    (
      (shift-value (shift_right_one a) n wr).0
          ∙ ap (λ x. x / 2 ^ n) er
          ∙ div-div-eq-div-mul (value a) 2 (2 ^ n)
          ∙ ap (λ x. value a / x) (sym (pow-succ' 2 n)),
      (shift-value (shift_left_one a) n wl).1
          ∙ ap (λ x. x * 2 ^ n % u64_mod) el
          ∙ double_then (value a) n,
    )
