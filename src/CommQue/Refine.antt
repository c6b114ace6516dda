-- ===== src/CommQue/Refine.antt =====
-- The ring of comm_que.c against four lists of slots that calls move from one to the next.
use native.Mathlib.Nat.{add-mod_right}
use my_common.Common.{
  ℕ, ◌+◌, ◌-◌, ◌%◌, ◌<◌, ◌≡◌, refl, ap, ap₂, ◌∙◌, false, Option, some, List, [], ◌∷◌, ◌++◌, leb,
  arith,
}
use my_common.Common.Window.{part-cons, part-snoc, part-shift}
use my_common.Common.Words.{add32, sub32}
use my_common.CommQue.{
  slot_ptr, waits_full, waits_empty, take_full, take_empty, put_full, put_empty, put_full_front,
  put_empty_front,
}
use my_common.CommQue.Slots.{World, IsValid, SlotLists, view, slots_from}
use my_common.CommQue.Protocol.{
  Step, Step-IsValid, got_empty, gave_full, got_full, gave_empty, returned_full, returned_empty,
}

-- A call on the slots, with the pointer that a get returns.
pub data Call : Type 0 where
  fetch_empty fetch_full : Option ℕ → Call
  commit_full release_empty unfetch_full unfetch_empty : Call

-- What each call does to the slots: the first of one list goes behind the next list, and a put to
-- the front takes the last of a list back to the front of the list before. A get returns the
-- pointer to the slot that it moves.
abbrev pub Moves : (ℕ → ℕ) → Call → SlotLists → SlotLists → Type 0
Moves ptr (fetch_empty p) s t =
    (x : ℕ) × (rest : List ℕ) × (p ≡ some (ptr x))
    × (s.empty ≡ x ∷ rest)
    × (t ≡ record s { writing = s.writing ++ (x ∷ []); empty = rest })
Moves ptr commit_full s t =
    (x : ℕ) × (rest : List ℕ) × (s.writing ≡ x ∷ rest)
    × (t ≡ record s { full = s.full ++ (x ∷ []); writing = rest })
Moves ptr (fetch_full p) s t =
    (x : ℕ) × (rest : List ℕ) × (p ≡ some (ptr x))
    × (s.full ≡ x ∷ rest)
    × (t ≡ record s { reading = s.reading ++ (x ∷ []); full = rest })
Moves ptr release_empty s t =
    (x : ℕ) × (rest : List ℕ) × (s.reading ≡ x ∷ rest)
    × (t ≡ record s { reading = rest; empty = s.empty ++ (x ∷ []) })
Moves ptr unfetch_full s t =
    (x : ℕ) × (rest : List ℕ) × (s.reading ≡ rest ++ (x ∷ []))
    × (t ≡ record s { reading = rest; full = x ∷ s.full })
Moves ptr unfetch_empty s t =
    (x : ℕ) × (rest : List ℕ) × (s.writing ≡ rest ++ (x ∷ []))
    × (t ≡ record s { writing = rest; empty = x ∷ s.empty })

-- The call that a step is.
abbrev pub step_call : {w u : World} → Step w u → Call
step_call {w} (got_empty nw nd e) = fetch_empty (take_empty w.que).0
step_call (gave_full p h e) = commit_full
step_call {w} (got_full nw nd e) = fetch_full (take_full w.que).0
step_call (gave_empty p h e) = release_empty
step_call (returned_full p h nd e) = unfetch_full
step_call (returned_empty p h nd e) = unfetch_empty

abbrev pub lists : List ℕ → List ℕ → List ℕ → List ℕ → SlotLists
lists r f w e = record { reading = r; full = f; writing = w; empty = e }

-- Records of lists are equal list by list.
lists-eq :
    {r r' f f' w w' e e' : List ℕ}
    → r ≡ r'
    → f ≡ f'
    → w ≡ w'
    → e ≡ e'
    → lists r f w e ≡ lists r' f' w' e'
lists-eq p q s t = λ i. lists (p i) (q i) (s i) (t i)

module _ {w : World} (v : IsValid w) where
  refine_got_empty :
      (u : World)
      → waits_empty w.que ≡ false
      → w.que.is_destroyed ≡ false
      → u ≡ record w { que = (take_empty w.que).1; writing = w.writing + 1 }
      → Moves (slot_ptr w.que) (fetch_empty (take_empty w.que).0) (view w) (view u)
  unfolding waits_empty take_empty
  refine_got_empty u nw nd e =
      let q = w.que in
      let k = w.reading + q.full_count in
      (
        ((w.oldest + (k + w.writing)) % q.max_count),
        (slots_from w (k + w.writing + 1) (q.empty_count - 1)),
        rw nd (
            ap (λ (i : ℕ). some (slot_ptr w.que i))
              (v.write_at ∙ ap (λ (i : ℕ). (w.oldest + i) % q.max_count) (omega arith))),
        (part-cons w.oldest v.nonempty (k + w.writing) (k + w.writing + 1) q.empty_count
            (q.empty_count - 1) refl (ground arith)),
        rw (e, nd)
            (lists-eq refl refl
              (part-snoc w.oldest v.nonempty k (k + w.writing) (w.writing + 1) w.writing refl refl)
              (ap₂ (slots_from w) (omega arith) (ground arith))),
      )

  refine_gave_full :
      (u : World) (p : ℕ)
      → 0 < w.writing
      → u ≡ record w { que = (put_full (some p) w.que).2; writing = w.writing - 1 }
      → Moves (slot_ptr w.que) commit_full (view w) (view u)
  unfolding put_full
  refine_gave_full u p h e =
      let q = w.que in
      let k = w.reading + q.full_count in
      (
        ((w.oldest + k) % q.max_count),
        (slots_from w (k + 1) (w.writing - 1)),
        (part-cons w.oldest v.nonempty k (k + 1) w.writing (w.writing - 1) refl (omega arith)),
        rw e (
            lists-eq refl
              (ap (slots_from w w.reading) (omega arith)
                ∙ part-snoc w.oldest v.nonempty w.reading k (q.full_count + 1) q.full_count refl
                    refl)
              (ap₂ (slots_from w) (omega arith) refl) (ap₂ (slots_from w) (omega arith) refl)),
      )

  refine_got_full :
      (u : World)
      → waits_full w.que ≡ false
      → w.que.is_destroyed ≡ false
      → u ≡ record w { que = (take_full w.que).1; reading = w.reading + 1 }
      → Moves (slot_ptr w.que) (fetch_full (take_full w.que).0) (view w) (view u)
  unfolding waits_full take_full
  refine_got_full u nw nd e =
      let q = w.que in
      let less : sub32 q.full_count 1 ≡ q.full_count - 1 = ground arith in
      let some_full : 0 < q.full_count = ground arith in
      (
        ((w.oldest + w.reading) % q.max_count),
        (slots_from w (w.reading + 1) (q.full_count - 1)),
        rw nd (ap (λ (i : ℕ). some (slot_ptr w.que i)) v.read_at),
        (part-cons w.oldest v.nonempty w.reading (w.reading + 1) q.full_count (q.full_count - 1)
            refl (omega arith)),
        rw (e, nd)
            (lists-eq
              (part-snoc w.oldest v.nonempty 0 w.reading (w.reading + 1) w.reading (omega arith)
                refl)
              (ap₂ (slots_from w) refl less) (ap₂ (slots_from w) (omega arith) refl)
              (ap₂ (slots_from w) (omega arith) refl)),
      )

  refine_gave_empty :
      (u : World) (p : ℕ)
      → 0 < w.reading
      → u ≡ record w {
        que = (put_empty (some p) w.que).2;
        oldest = (w.oldest + 1) % w.que.max_count;
        reading = w.reading - 1;
      }
      → Moves (slot_ptr w.que) release_empty (view w) (view u)
  unfolding put_empty
  refine_gave_empty u p h e =
      let q = w.que in
      let n = q.max_count in
      let o = w.oldest in
      let k = w.reading + q.full_count + w.writing in
      let more : add32 q.empty_count 1 ≡ q.empty_count + 1 = ground arith in
      (
        ((o + 0) % n),
        (slots_from w 1 (w.reading - 1)),
        (part-cons o v.nonempty 0 1 w.reading (w.reading - 1) refl (omega arith)),
        rw e (
            lists-eq (part-shift o v.nonempty 0 1 (w.reading - 1) refl)
              (part-shift o v.nonempty (w.reading - 1) w.reading q.full_count (omega arith))
              (part-shift o v.nonempty (w.reading - 1 + q.full_count) (w.reading + q.full_count)
                w.writing (omega arith))
              (part-shift o v.nonempty (w.reading - 1 + q.full_count + w.writing) k
                  (add32 q.empty_count 1) (omega arith)
                ∙ part-snoc o v.nonempty k n (add32 q.empty_count 1) q.empty_count (omega arith)
                    more
                ∙ ap (λ (t : ℕ). slots_from w k q.empty_count ++ (t ∷ []))
                    (add-mod_right o n ∙ ap (λ (t : ℕ). t % n) (omega arith)))),
      )

  refine_returned_full :
      (u : World) (p : ℕ)
      → 0 < w.reading
      → w.que.is_destroyed ≡ false
      → u ≡ record w { que = (put_full_front (some p) w.que).2; reading = w.reading - 1 }
      → Moves (slot_ptr w.que) unfetch_full (view w) (view u)
  unfolding put_full_front
  refine_returned_full u p h nd e =
      let q = w.que in
      let n = q.max_count in
      let o = w.oldest in
      let room : leb n q.full_count ≡ false = ground arith in
      let more : add32 q.full_count 1 ≡ q.full_count + 1 = ground arith in
      (
        ((o + (w.reading - 1)) % n),
        (slots_from w 0 (w.reading - 1)),
        (part-snoc o v.nonempty 0 (w.reading - 1) w.reading (w.reading - 1) (omega arith)
            (omega arith)),
        rw (e, room, nd)
            (lists-eq refl
              (part-cons o v.nonempty (w.reading - 1) w.reading (add32 q.full_count 1) q.full_count
                (omega arith) more)
              (ap₂ (slots_from w) (omega (arith, more)) refl)
              (ap₂ (slots_from w) (omega (arith, more)) refl)),
      )

  refine_returned_empty :
      (u : World) (p : ℕ)
      → 0 < w.writing
      → w.que.is_destroyed ≡ false
      → u ≡ record w { que = (put_empty_front (some p) w.que).2; writing = w.writing - 1 }
      → Moves (slot_ptr w.que) unfetch_empty (view w) (view u)
  unfolding put_empty_front
  refine_returned_empty u p h nd e =
      let q = w.que in
      let n = q.max_count in
      let o = w.oldest in
      let k = w.reading + q.full_count in
      let room : leb n q.empty_count ≡ false = ground arith in
      let more : add32 q.empty_count 1 ≡ q.empty_count + 1 = ground arith in
      (
        ((o + (k + (w.writing - 1))) % n),
        (slots_from w k (w.writing - 1)),
        (part-snoc o v.nonempty k (k + (w.writing - 1)) w.writing (w.writing - 1) refl
            (omega arith)),
        rw (e, room, nd)
            (lists-eq refl refl refl (
              part-cons o v.nonempty (k + (w.writing - 1)) (k + w.writing) (add32 q.empty_count 1)
                q.empty_count (omega arith) more)),
      )

moves :
    {w u : World}
    → IsValid w
    → (st : Step w u) → Moves (slot_ptr w.que) (step_call st) (view w) (view u)
moves {u} v (got_empty nw nd e) = refine_got_empty v u nw nd e
moves {u} v (gave_full p h e) = refine_gave_full v u p h e
moves {u} v (got_full nw nd e) = refine_got_full v u nw nd e
moves {u} v (gave_empty p h e) = refine_gave_empty v u p h e
moves {u} v (returned_full p h nd e) = refine_returned_full v u p h nd e
moves {u} v (returned_empty p h nd e) = refine_returned_empty v u p h nd e

-- Each call of the producer and consumer protocol of comm_que.c on a valid queue keeps it valid,
-- so its read and write indices and its counts stand where the lists of slots say, and does to
-- the four lists of slots (held by consumers, full, held by producers, empty) the move of this
-- very call; a get returns the pointer to the slot that it moves.
pub Step-refines :
    {w u : World}
    → IsValid w
    → (st : Step w u) → IsValid u × Moves (slot_ptr w.que) (step_call st) (view w) (view u)
Step-refines v st = (Step-IsValid v st, moves v st)
