-- ===== src/MsgQueue/Tests.antt =====
-- Runs of msgqueue.c on a pool of two messages, and the theorems at such queues.
use my_common.Common.{ℕ, ◌+◌, ◌≡◌, refl, none, some, List, [], ◌∷◌, length, arith}
use my_common.Common.StateCode.{no_error, time_out}
use my_common.CommQue.Create.{fresh}
use my_common.MsgQueue.{Msg, MsgQueue, safe_strcpy, clear_queue}
use my_common.MsgQueue.Fifo.{
  Op, post, fetch, done, code, message, fifo_run, Client, client_run, Represents,
}
use my_common.MsgQueue.Fifo.Refine.{client_run_refines, fresh-Represents}
use my_common.MsgQueue.Drain.{CanDrain, Drained, clear_queue-total}

abbrev msg : ℕ → Msg
msg n = record { command = n; msg_id = n ∷ []; body = some (100 + n); call_id = 7 }

abbrev blank : Msg
blank = record { command = 0; msg_id = []; body = none; call_id = 0 }

abbrev new : Client
new = record { queue = record { que = fresh 2 56; pool = λ p. blank }; got = [] }

abbrev script : List Op
script = post (msg 1) ∷ post (msg 2) ∷ post (msg 3) ∷ fetch ∷ done ∷ post (msg 3) ∷ fetch ∷ []

client_run-script :
    client_run script new
    ≡ code no_error
      ∷ code no_error
      ∷ code time_out
      ∷ message (some (msg 1))
      ∷ code no_error
      ∷ code no_error
      ∷ message (some (msg 2))
      ∷ []
unfolding client_run
client_run-script = refl

long_id_is_cut : length (safe_strcpy 4 (1 ∷ 2 ∷ 3 ∷ 4 ∷ 5 ∷ [])) ≡ 3
unfolding safe_strcpy
long_id_is_cut = refl

new-Represents : Represents new 0 0 (record { held = []; pending = []; room = 2 })
new-Represents =
    fresh-Represents 2 56 (λ p. blank) (omega arith) (omega arith) (omega arith) (omega arith)

client_run_refines_example :
    client_run script new ≡ fifo_run script (record { held = []; pending = []; room = 2 })
client_run_refines_example = client_run_refines script new-Represents

-- Two pending messages, the first in the last slot.
abbrev two_pending : MsgQueue
two_pending = record {
  que = record (fresh 2 56) { read = 1; write = 1; full_count = 2; empty_count = 0 };
  pool = λ p. msg p;
}

two_pending-CanDrain : CanDrain two_pending.que
two_pending-CanDrain = record {
  live = refl;
  small = omega arith;
  read_in = omega arith;
  counts = omega arith;
  sized = omega arith;
  fits = omega arith;
}

clear_queue-total_example :
    (freed' : List ℕ) × (q' : MsgQueue) × (clear_queue 3 [] two_pending ≡ some (freed', q'))
    × Drained two_pending [] freed' q'
clear_queue-total_example = clear_queue-total 3 [] two_pending two_pending-CanDrain (omega arith)
