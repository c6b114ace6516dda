-- ===== src/CommQue/Wakeup.antt =====
-- The condition variables of comm_que.c: no change of the state that lets a waiting thread go on is
-- made without waking one.
use my_common.Common.{ℕ, ◌≡◌, Bool, true, false, Option, List, [], ◌∷◌, arith, if◌then◌else◌}
use my_common.CommQue.{
  CommQue, Signal, signal_full, signal_empty, broadcast_full, broadcast_empty, waits_full,
  waits_empty, take_full, take_empty, put_full, put_empty, put_full_front, put_empty_front, clear,
  mark_destroyed,
}

-- The critical sections that change the state; a get that has to wait changes nothing.
pub data Section : Type 0 where
  takes_full takes_empty clears destroys : Section
  puts_full puts_empty puts_full_front puts_empty_front : Option ℕ → Section

unfoldable pub update : Section → CommQue → List Signal × CommQue
update takes_full q = ([], if waits_full q then q else (take_full q).1)
update takes_empty q = ([], if waits_empty q then q else (take_empty q).1)
update clears q = clear q
update destroys q = mark_destroyed q
update (puts_full p) q = let (r, s, q2) = put_full p q in (s, q2)
update (puts_empty p) q = let (r, s, q2) = put_empty p q in (s, q2)
update (puts_full_front p) q = let (r, s, q2) = put_full_front p q in (s, q2)
update (puts_empty_front p) q = let (r, s, q2) = put_empty_front p q in (s, q2)

abbrev pub wakes_full : List Signal → Bool
wakes_full [] = false
wakes_full (signal_full ∷ s) = true
wakes_full (broadcast_full ∷ s) = true
wakes_full (signal_empty ∷ s) = wakes_full s
wakes_full (broadcast_empty ∷ s) = wakes_full s

abbrev pub wakes_empty : List Signal → Bool
wakes_empty [] = false
wakes_empty (signal_empty ∷ s) = true
wakes_empty (broadcast_empty ∷ s) = true
wakes_empty (signal_full ∷ s) = wakes_empty s
wakes_empty (broadcast_full ∷ s) = wakes_empty s

-- Whatever critical section of comm_que.c ends the wait for a full element, or for an empty slot,
-- also signals or broadcasts the condition variable on which the threads that wait for it sleep.
pub update-wakes :
    (c : Section) (q : CommQue)
    → let (signals, q') = update c q in
      (waits_full q ≡ true → waits_full q' ≡ false → wakes_full signals ≡ true)
      × (waits_empty q ≡ true → waits_empty q' ≡ false → wakes_empty signals ≡ true)
unfolding update waits_full waits_empty take_full take_empty put_full put_empty put_full_front
    put_empty_front clear mark_destroyed
update-wakes takes_full q = ground arith
update-wakes takes_empty q = ground arith
update-wakes clears q = ground arith
update-wakes destroys q = ground arith
update-wakes (puts_full p) q = ground arith
update-wakes (puts_empty p) q = ground arith
update-wakes (puts_full_front p) q = ground arith
update-wakes (puts_empty_front p) q = ground arith
