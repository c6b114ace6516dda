-- ===== src/CommQue/Index.antt =====
-- The index computations of comm_que.c, in `uint32_t`, move one place round the ring.
use native.Mathlib.Nat.{mod-add-mod, mod-lt}
use my_common.Common.{ℕ, ◌+◌, ◌-◌, ◌%◌, ◌^◌, ◌≤◌, ◌<◌, ◌≡◌, ap, ◌∙◌, arith}
use my_common.Common.Window.{mod-cases}
use my_common.Common.Words.{add32}
use my_common.CommQue.{step_back}

module _ (n o i k k' : ℕ) where
  -- `(index + 1) % maxCount` does not wrap, and is the next place.
  pub advance : n ≤ 2 ^ 31 → o < n → i ≡ (o + k) % n → k' ≡ k + 1 → add32 i 1 % n ≡ (o + k') % n
  advance small inside at e =
      ap (λ (t : ℕ). t % n) (omega (arith, mod-lt (o + k) {m = n} (omega arith)))
      ∙ ap (λ (t : ℕ). (t + 1) % n) at
      ∙ mod-add-mod (o + k) n 1
      ∙ ap (λ (t : ℕ). t % n) (omega arith)

  -- `(index + maxCount - 1) % maxCount` does not wrap, and is the place before.
  pub retreat :
      n ≤ 2 ^ 31 → o < n → i ≡ (o + k) % n → k ≡ k' + 1 → k ≤ n → step_back i n ≡ (o + k') % n
  retreat small inside at e h =
      ap (λ (t : ℕ). t % n) plain
      ∙ omega (
        arith,
        mod-cases (o + k) n (omega arith),
        mod-cases (o + k') n (omega arith),
        mod-cases (i + n - 1) n (omega (arith, mod-lt (o + k) {m = n} (omega arith))),
      )
    where
      plain : ((i + n) % 2 ^ 32 + 2 ^ 32 - 1) % 2 ^ 32 ≡ i + n - 1
      plain = omega (arith, mod-lt (o + k) {m = n} (omega arith))
