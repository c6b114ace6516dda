-- ===== src/CommQue/Tests.antt =====
-- Runs of comm_que.c on a queue of two slots of four bytes, and the theorems at such queues.
use my_common.Common.{◌≡◌, ◌≢◌, refl, true, false, none, some, [], ◌∷◌, All, arith}
use my_common.CommQue.{
  CommQue, failure, no_wait, forever, within, woken, timed_out, returned, slot_ptr, waits_empty,
  take_full, take_empty, get_full, put_full, put_full_front,
}
use my_common.CommQue.Create.{fresh, Platform}
use my_common.CommQue.Slots.{World, IsValid, view}
use my_common.CommQue.Protocol.{
  Step, got_empty, gave_full, here, next, initial, initial-IsValid, Step-IsValid, reachable-IsValid,
}
use my_common.CommQue.Refine.{Moves, step_call, Step-refines}
use my_common.CommQue.Ownership.{take_empty-unused, used_slots}
use my_common.CommQue.Handle.{handle_put_full}

abbrev two : CommQue
two = fresh 2 4

-- One element full in the first slot.
abbrev one_full : CommQue
one_full = record two { write = 1; full_count = 1; empty_count = 1 }

put_then_get :
    get_full no_wait [] (put_full (some 0) (take_empty two).1).2
    ≡ returned (some 0) (record two { write = 1; read = 1; empty_count = 1 })
unfolding get_full take_empty put_full
put_then_get = refl

empty_queue : get_full no_wait [] two ≡ returned none two
unfolding get_full
empty_queue = refl

-- A wait that ends when another thread puts an element.
waits_for_element :
    get_full forever (woken two ∷ woken one_full ∷ []) two
    ≡ returned (some 0) (record one_full { read = 1; full_count = 0 })
unfolding get_full
waits_for_element = refl

wait_times_out : get_full (within 10) (timed_out two ∷ []) two ≡ returned none two
unfolding get_full
wait_times_out = refl

-- The element is given back to the front, and comes out again.
front_again :
    get_full no_wait [] (put_full_front (some 0) (take_full one_full).1).2
    ≡ get_full no_wait [] one_full
unfolding get_full take_full put_full_front
front_again = refl

null_handle : handle_put_full none (some 0) ≡ (failure, none)
unfolding handle_put_full
null_handle = refl

abbrev start : World
start = initial 2 4

abbrev filling : World
filling = record {
  que = record two { write = 1; empty_count = 1 };
  oldest = 0;
  reading = 0;
  writing = 1;
}

abbrev filled : World
filled = record { que = one_full; oldest = 0; reading = 0; writing = 0 }

first-Step : Step start filling
unfolding waits_empty take_empty
first-Step = got_empty refl refl refl

second-Step : Step filling filled
unfolding put_full
second-Step = gave_full 0 (omega arith) refl

start-IsValid : IsValid start
start-IsValid = initial-IsValid 2 4 (omega arith) (omega arith)

filled-IsValid : IsValid filled
filled-IsValid = Step-IsValid (Step-IsValid start-IsValid first-Step) second-Step

reachable-IsValid_example : IsValid filled
reachable-IsValid_example =
    reachable-IsValid 2 4 (omega arith) (omega arith) (next (next here first-Step) second-Step)

Step-refines_example :
    IsValid filling × Moves (slot_ptr start.que) (step_call first-Step) (view start) (view filling)
Step-refines_example = Step-refines start-IsValid first-Step

take_empty-unused_example :
    ((take_empty one_full).0 ≡ some (slot_ptr one_full 1)) × All (λ s. s ≢ 1) (used_slots filled)
unfolding waits_empty
take_empty-unused_example = take_empty-unused filled-IsValid refl refl

-- A platform with no memory for the buffer.
abbrev no_buffer : Platform
no_buffer = record {
  control_ok = true;
  mutex_ok = true;
  cond_full_ok = true;
  cond_empty_ok = true;
  buffer_ok = λ size. false;
}
