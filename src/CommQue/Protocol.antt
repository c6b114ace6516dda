-- ===== src/CommQue/Protocol.antt =====
-- The clients' protocol of comm_que.c as a step relation, and the invariant of the slots.
-- A producer gets an empty slot and puts it full, a consumer gets a full slot and puts it empty;
-- slots are put in the order in which they were got. A put to the front gives back the slot that
-- was got last.
use native.Mathlib.Nat.{mod-lt, mod-eq_of_lt, add-zero}
use my_common.Common.{ℕ, ◌+◌, ◌-◌, ◌%◌, ◌^◌, ◌≤◌, ◌<◌, ◌≡◌, false, some, arith}
use my_common.Common.Window.{mod-step}
use my_common.CommQue.{
  waits_full, waits_empty, take_full, take_empty, put_full, put_empty, put_full_front,
  put_empty_front,
}
use my_common.CommQue.Index.{advance, retreat}
use my_common.CommQue.Create.{fresh}
use my_common.CommQue.Slots.{World, IsValid}

-- Each step is a call on a queue that is not destroyed; a step of `get_…` is the end of a call that
-- no longer waits.
pub data Step (w u : World) : Type 0 where
  got_empty :
      waits_empty w.que ≡ false
      → w.que.is_destroyed ≡ false
      → u ≡ record w { que = (take_empty w.que).1; writing = w.writing + 1 }
      → Step w u
  gave_full :
      (p : ℕ)
      → 0 < w.writing
      → u ≡ record w { que = (put_full (some p) w.que).2; writing = w.writing - 1 }
      → Step w u
  got_full :
      waits_full w.que ≡ false
      → w.que.is_destroyed ≡ false
      → u ≡ record w { que = (take_full w.que).1; reading = w.reading + 1 }
      → Step w u
  gave_empty :
      (p : ℕ)
      → 0 < w.reading
      → u ≡ record w {
        que = (put_empty (some p) w.que).2;
        oldest = (w.oldest + 1) % w.que.max_count;
        reading = w.reading - 1;
      }
      → Step w u
  returned_full :
      (p : ℕ)
      → 0 < w.reading
      → w.que.is_destroyed ≡ false
      → u ≡ record w { que = (put_full_front (some p) w.que).2; reading = w.reading - 1 }
      → Step w u
  returned_empty :
      (p : ℕ)
      → 0 < w.writing
      → w.que.is_destroyed ≡ false
      → u ≡ record w { que = (put_empty_front (some p) w.que).2; writing = w.writing - 1 }
      → Step w u

pub data Reach (s : World) : World → Type 0 where
  here : Reach s s
  next : {t u : World} → Reach s t → Step t u → Reach s u

-- A new queue of `count` slots, none of them held.
abbrev pub initial : ℕ → ℕ → World
initial count size = record { que = fresh count size; oldest = 0; reading = 0; writing = 0 }

pub initial-IsValid : (count size : ℕ) → 0 < count → count ≤ 2 ^ 31 → IsValid (initial count size)
initial-IsValid count size h k = ground (arith, mod-eq_of_lt {n = 0} {m = count} h, add-zero 0)

pub Step-IsValid : {w u : World} → IsValid w → Step w u → IsValid u
unfolding take_empty put_full take_full put_empty put_full_front put_empty_front waits_empty
    waits_full
Step-IsValid {w} {u} v (got_empty nw nd e) =
    let q = w.que in
    let k = w.reading + q.full_count + w.writing in
    ground
      (arith, advance q.max_count w.oldest q.write k (w.reading + q.full_count + (w.writing + 1)))
Step-IsValid {w} {u} v (gave_full p h e) = ground (arith)
Step-IsValid {w} {u} v (got_full nw nd e) =
    let q = w.que in ground (arith, advance q.max_count w.oldest q.read w.reading (w.reading + 1))
Step-IsValid {w} {u} v (gave_empty p h e) =
    let q = w.que in
    let k = w.reading + q.full_count + w.writing in
    ground (
      arith,
      mod-lt (w.oldest + 1) {m = q.max_count} v.nonempty,
      mod-step q.max_count w.oldest (w.reading - 1),
      mod-step q.max_count w.oldest (w.reading - 1 + q.full_count + w.writing),
    )
Step-IsValid {w} {u} v (returned_full p h nd e) =
    let q = w.que in ground (arith, retreat q.max_count w.oldest q.read w.reading (w.reading - 1))
Step-IsValid {w} {u} v (returned_empty p h nd e) =
    let q = w.que in
    let k = w.reading + q.full_count + w.writing in
    ground
      (arith, retreat q.max_count w.oldest q.write k (w.reading + q.full_count + (w.writing - 1)))

Reach-IsValid : {s t : World} → IsValid s → Reach s t → IsValid t
Reach-IsValid v here = v
Reach-IsValid v (next r st) = Step-IsValid (Reach-IsValid v r) st

-- Every state that calls in the protocol lead to from a new queue of 1 to 2^31 slots is valid:
-- held, full and empty slots add up to the slots of the ring, and read and write stand where the
-- full and the empty slots begin.
pub reachable-IsValid :
    (count size : ℕ) {t : World}
    → 0 < count
    → count ≤ 2 ^ 31
    → Reach (initial count size) t
    → IsValid t
reachable-IsValid count size h k r = Reach-IsValid (initial-IsValid count size h k) r
