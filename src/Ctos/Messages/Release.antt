-- ===== src/Ctos/Messages/Release.antt =====
-- Which pointers os_message_release of common/ctos.c takes for elements.
use native.Mathlib.Nat.{mul-le-mul_right, mul_comm}
use my_common.Common.{
  ℕ, ◌+◌, ◌-◌, ◌*◌, ◌/◌, ◌%◌, ◌^◌, ◌≤◌, ◌<◌, false, set, ltb, if◌then◌else◌, Bool-cases, inl, inr,
  ◌≡◌, arith,
}
use my_common.Common.Words.{u32_mod}
use my_common.Ctos.Messages.{Messages, queue_nb_max, element_at, index_of, release}

-- Pointers behind a block of less than 2^32 bytes, in two's parts.
low_bits :
    (base offset : ℕ)
    → offset < 2 ^ 32
    → base % 2 ^ 32 + offset < 2 ^ 32
    → (base + offset) % 2 ^ 32 ≡ base % 2 ^ 32 + offset
low_bits base offset l m = omega arith

low_bits_over :
    (base offset : ℕ)
    → offset < 2 ^ 32
    → 2 ^ 32 ≤ base % 2 ^ 32 + offset
    → (base + offset) % 2 ^ 32 < base % 2 ^ 32
low_bits_over base offset l m = omega arith

quotient : (i s : ℕ) → 0 < s → (i * s) / s ≡ i
quotient i s h = grind arith

-- Where an element lies in a block.
pub offset_in : (i n s : ℕ) → i < n → 0 < s → i * s + s ≤ s * n
offset_in i n s l h =
    omega (arith, mul-le-mul_right {m = i + 1} {n = n} s (omega arith), mul_comm s n)

index_at :
    (q : Messages) (i : ℕ)
    → 0 < q.element_size
    → q.element_size < 2 ^ 32
    → i * q.element_size < 2 ^ 32
    → q.memory % 2 ^ 32 + i * q.element_size < 2 ^ 32
    → index_of q (element_at q i) ≡ i
index_at q i h s o l =
    let same : q.element_size % u32_mod ≡ q.element_size = omega arith in
    let gap : element_at q i % u32_mod ≡ q.memory % u32_mod + i * q.element_size =
      low_bits q.memory (i * q.element_size) o l in
    rw (same, gap)
      (let off : q.memory % u32_mod + i * q.element_size - q.memory % u32_mod ≡ i * q.element_size =
          omega arith in
        rw off (quotient i q.element_size h))

-- os_message_release of an element of a live queue with a block of less than 2^32 bytes frees
-- just this element and counts it, if the low 32 bits of addresses do not wrap before the
-- element, and does nothing if they do.
pub release-Freed :
    (q : Messages) (i : ℕ)
    → q.index < queue_nb_max
    → i < q.no_elements
    → 0 < q.element_size
    → q.element_size * q.no_elements < 2 ^ 32
    → release (element_at q i) q ≡ (
        if ltb (q.memory % 2 ^ 32 + i * q.element_size) (2 ^ 32)
        then record q { used = set q.used i false; claim_semaphore = q.claim_semaphore + 1 }
        else q)
unfolding release
release-Freed q i live l h b =
    let off = offset_in i q.no_elements q.element_size l h in
    elim (Bool-cases (ltb (q.memory % 2 ^ 32 + i * q.element_size) (2 ^ 32))) [
      | inl y ↦
          let below : q.memory % 2 ^ 32 + i * q.element_size < 2 ^ 32 = ground arith in
          ground (
            arith,
            low_bits q.memory (i * q.element_size) (omega (arith, off)) below,
            index_at q i h (omega (arith, off)) (omega (arith, off)) below,
            off,
          )
      | inr n ↦
          let over : 2 ^ 32 ≤ q.memory % 2 ^ 32 + i * q.element_size = ground arith in
          ground (arith, low_bits_over q.memory (i * q.element_size) (omega (arith, off)) over)
    ]
