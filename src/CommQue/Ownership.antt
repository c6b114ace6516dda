-- ===== src/CommQue/Ownership.antt =====
-- Who holds which slot of comm_que.c: no slot is in two hands.
use native.Mathlib.Nat.{mod-lt, mod-add-mod, add-mod_right, mod-eq_of_lt, le_refl}
use my_common.Common.{
  ℕ, zero, suc, ◌+◌, ◌-◌, ◌*◌, ◌%◌, ◌^◌, ◌≤◌, ◌<◌, ◌≡◌, ◌≢◌, sym, ap, ◌∙◌, refl, false, some, List,
  ◌++◌, arith, All, subst,
}
use my_common.Common.Window.{window, part-append, All-window-ne}
use my_common.CommQue.{CommQue, slot_ptr, waits_empty, take_empty}
use my_common.CommQue.Slots.{World, IsValid, view, all_slots, slots_from, Distinct}

window-Distinct : (size start n : ℕ) → start < size → n ≤ size → Distinct (window size start n)
window-Distinct size start zero hs hn = tt
window-Distinct size start (suc n) hs hn = (
  All-window-ne size ((start + 1) % size) n (size - 1) next_in (omega arith) (omega arith) round,
  window-Distinct size ((start + 1) % size) n next_in (omega arith),
)
  where
    next_in : (start + 1) % size < size
    next_in = mod-lt (start + 1) (omega arith)

    round : start ≡ ((start + 1) % size + (size - 1)) % size
    round = sym (
        mod-add-mod (start + 1) size (size - 1)
        ∙ ap (λ (t : ℕ). t % size) (omega arith)
        ∙ add-mod_right start size
        ∙ mod-eq_of_lt hs)

-- The slots of the three groups that are in use.
abbrev pub used_slots : World → List ℕ
used_slots w = (view w).reading ++ ((view w).full ++ (view w).writing)

module _ {w : World} (v : IsValid w) where
  used_slots_lem : used_slots w ≡ slots_from w 0 (w.reading + w.que.full_count + w.writing)
  used_slots_lem =
      let o = w.oldest in
      let f = w.que.full_count in
      ap (λ l. slots_from w 0 w.reading ++ l)
        (part-append o v.nonempty w.reading (w.reading + f) f w.writing refl)
      ∙ part-append o v.nonempty 0 w.reading w.reading (f + w.writing) (omega arith)
      ∙ ap (slots_from w 0) (omega arith)

  -- In a valid state the slots held by consumers, the full ones, those held by producers and
  -- the empty ones are together the slots of the ring, each exactly once.
  partition : (all_slots (view w) ≡ slots_from w 0 w.que.max_count) × Distinct (all_slots (view w))
  partition =
      let o = w.oldest in
      let f = w.que.full_count in
      let e = w.que.empty_count in
      let whole : all_slots (view w) ≡ slots_from w 0 w.que.max_count =
        ap (λ l. slots_from w 0 w.reading ++ (slots_from w w.reading f ++ l))
          (part-append o v.nonempty (w.reading + f) (w.reading + f + w.writing) w.writing e refl)
        ∙ ap (λ l. slots_from w 0 w.reading ++ l)
            (part-append o v.nonempty w.reading (w.reading + f) f (w.writing + e) refl)
        ∙ part-append o v.nonempty 0 w.reading w.reading (f + (w.writing + e)) (omega arith)
        ∙ ap (slots_from w 0) (omega arith) in
      (
        whole,
        subst Distinct (sym whole) (
            window-Distinct w.que.max_count ((w.oldest + 0) % w.que.max_count) w.que.max_count
              (mod-lt (w.oldest + 0) v.nonempty) (le_refl _)),
      )

  -- The slot that CommQue_GetEmpty hands out of a valid live queue that has an empty slot is
  -- the one at the write index, and it is neither full nor in the hands of any client.
  pub take_empty-unused :
      waits_empty w.que ≡ false
      → w.que.is_destroyed ≡ false
      → ((take_empty w.que).0 ≡ some (slot_ptr w.que w.que.write))
        × All (λ s. s ≢ w.que.write) (used_slots w)
  unfolding waits_empty take_empty
  take_empty-unused nw nd =
      let q = w.que in
      let k = w.reading + q.full_count + w.writing in
      (
        rw nd,
        subst (All (λ s. s ≢ q.write)) (sym used_slots_lem) (
            All-window-ne q.max_count ((w.oldest + 0) % q.max_count) k k
              (mod-lt (w.oldest + 0) v.nonempty) (le_refl k) (ground arith)
              (v.write_at
                ∙ sym (
                    mod-add-mod (w.oldest + 0) q.max_count k
                    ∙ ap (λ (t : ℕ). t % q.max_count) (omega arith)))),
      )

-- Of two different slots of a queue whose buffer size fits a size_t, the later lies inside the
-- buffer and the earlier ends before it begins.
pub slot_ptr_apart :
    (q : CommQue) (i j : ℕ)
    → q.max_count * q.element_size < 2 ^ 64
    → i < q.max_count
    → j < i
    → (slot_ptr q i + q.element_size ≤ q.max_count * q.element_size)
      × (slot_ptr q j + q.element_size ≤ slot_ptr q i)
slot_ptr_apart q i j fits hi hj =
    let s = q.element_size in
    let last : i * s + s ≤ q.max_count * s = grind arith in
    let before : j * s + s ≤ i * s = grind arith in
    omega (
      arith,
      last,
      before,
      mod-eq_of_lt {n = i * s} {m = 2 ^ 64} (omega (arith, last)),
      mod-eq_of_lt {n = j * s} {m = 2 ^ 64} (omega (arith, last, before)),
    )
