-- ===== src/ShareMem/Protocol/Ring.antt =====
-- What the calls of share_mem_queue.c that succeed have found and done, and where the elements stand.
use native.Mathlib.Nat.{mod-lt, mod-eq_of_lt, le_refl}
use native.Mathlib.Decide.{dec_lt}
use my_common.Common.{
  ℕ, zero, suc, ◌+◌, ◌-◌, ◌*◌, ◌%◌, ◌^◌, ◌<◌, ◌≤◌, Option, none, some, length, length-map, All,
  All-zip, ◌≡◌, ◌≢◌, refl, sym, ◌∙◌, subst, arith,
}
use my_common.Common.Window.{window, length-window, All-window-lt, All-window-ne}
use my_common.Common.Words.{add64, sub64}
use my_common.Common.StateCode.{no_error}
use my_common.ShareMem.{
  ControlBlock, Calls, got, element_at, get_write_ptr, put_write_ptr, get_read_ptr, put_read_ptr,
}
use my_common.ShareMem.Stream.{World, write_at, value_of, view, held, IsAt, IsValid}

-- What a call that succeeds has found and done.
pub get_write_ptr-got :
    (k : Calls) (b : ControlBlock) (p : ℕ) (b' : ControlBlock)
    → get_write_ptr k b ≡ got (some p) b'
    → (0 < b.not_full)
      × (p ≡ element_at b b.write_index)
      × (b' ≡ record b { not_full = b.not_full - 1 })
unfolding get_write_ptr
get_write_ptr-got k b p b' e = ground arith

pub put_write_ptr-done :
    (k : Calls) (b b' : ControlBlock)
    → put_write_ptr k b ≡ (no_error, b')
    → b' ≡ record b {
      write_index = add64 b.write_index 1 % b.max_elements;
      element_count = add64 b.element_count 1;
      not_empty = b.not_empty + 1;
    }
unfolding put_write_ptr
put_write_ptr-done k b b' e = ground arith

pub get_read_ptr-got :
    (k : Calls) (b : ControlBlock) (p : ℕ) (b' : ControlBlock)
    → get_read_ptr k b ≡ got (some p) b'
    → (0 < b.not_empty)
      × (p ≡ element_at b b.read_index)
      × (b' ≡ record b { not_empty = b.not_empty - 1 })
unfolding get_read_ptr
get_read_ptr-got k b p b' e = ground arith

pub put_read_ptr-done :
    (k : Calls) (b b' : ControlBlock)
    → put_read_ptr k b ≡ (no_error, b')
    → b' ≡ record b {
      read_index = add64 b.read_index 1 % b.max_elements;
      element_count = sub64 b.element_count 1;
      not_full = b.not_full + 1;
    }
unfolding put_read_ptr
put_read_ptr-done k b b' e = ground arith

pub element_at-exact :
    (b : ControlBlock) (i : ℕ)
    → 0 < b.element_size
    → b.max_elements * b.element_size < 2 ^ 64
    → i < b.max_elements
    → element_at b i ≡ i * b.element_size
element_at-exact b i hs hf hi =
    let last : i * b.element_size + b.element_size ≤ b.max_elements * b.element_size =
      grind arith in
    mod-eq_of_lt {n = i * b.element_size} {m = 2 ^ 64} (omega (arith, last))

-- Different elements stand at different offsets.
pub element_at-ne :
    (b : ControlBlock) (i j : ℕ)
    → 0 < b.element_size
    → b.max_elements * b.element_size < 2 ^ 64
    → i < b.max_elements
    → j < b.max_elements
    → i < j
    → element_at b i ≢ element_at b j
element_at-ne b i j hs hf hi hj lt e =
    let s = b.element_size in
    let before : i * s + s ≤ j * s = grind arith in
    omega (arith, before, element_at-exact b i hs hf hi, element_at-exact b j hs hf hj)

pub write_at-same : (elements : ℕ → ℕ) (p x : ℕ) → write_at elements p x p ≡ x
write_at-same elements p x = ground arith

pub window-first :
    (P : ℕ → Type 0) (size start n : ℕ) → 0 < n → All P (window size start n) → P start
window-first P size start zero h all = elim h [ ]
window-first P size start (suc n) h all = all.0

module _ {w : World} (v : IsValid w) where
  pub items-length : length (view w).items ≡ w.block.element_count
  items-length =
      length-map (window w.block.max_elements w.block.read_index w.block.element_count)
        (λ i. w.elements (element_at w.block i))
      ∙ length-window w.block.max_elements w.block.read_index w.block.element_count

  pub apart :
      (i j : ℕ)
      → i < w.block.max_elements
      → j < w.block.max_elements
      → i ≢ j
      → element_at w.block i ≢ element_at w.block j
  apart i j hi hj ne = elim (dec_lt i j) [
    | yes lt ↦ element_at-ne w.block i j v.sized v.fits hi hj lt
    | no ge ↦ λ e. element_at-ne w.block j i v.sized v.fits hj hi (omega (arith, ne)) (sym e)
  ]

  pub write_lt : w.block.write_index < w.block.max_elements
  write_lt =
      subst (λ (t : ℕ). t < w.block.max_elements) (sym v.write_in)
        (mod-lt (w.block.read_index + w.block.element_count) v.nonempty)

  pub value-kept :
      (p x : ℕ) (o : Option ℕ) (q : ℕ)
      → IsAt o q
      → (held o ≡ 1 → q ≢ p)
      → value_of (write_at w.elements p x) o ≡ value_of w.elements o
  value-kept p x none q at ne = refl
  value-kept p x (some r) q at ne = ground (arith, ne refl)

  -- The element at the write index, where there is room, is none of the committed ones.
  pub write-apart :
      w.block.element_count < w.block.max_elements
      → All
          (λ i. element_at w.block i ≢ element_at w.block w.block.write_index)
          (window w.block.max_elements w.block.read_index w.block.element_count)
  write-apart room =
      All-zip (λ i. i < w.block.max_elements) (λ i. i ≢ w.block.write_index)
        (λ i. element_at w.block i ≢ element_at w.block w.block.write_index)
        (window w.block.max_elements w.block.read_index w.block.element_count)
        (λ i hi ne. apart i w.block.write_index hi write_lt ne)
        (All-window-lt w.block.max_elements w.block.read_index w.block.element_count v.read_in)
        (All-window-ne w.block.max_elements w.block.read_index w.block.element_count
          w.block.element_count v.read_in (le_refl _) room v.write_in)
