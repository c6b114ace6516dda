-- ===== src/MsgQueue.antt =====
-- common/msgqueue.c: a queue of messages (`T_Msg` of common/media.h) in the slots of one `CommQue`.
-- A null handle is tested first in each function of the source; here the queue is always there.
pub mod Fifo
pub mod Drain
pub mod Create
mod Tests
use my_common.Common.{
  ℕ, zero, suc, ◌+◌, ◌-◌, Bool, Option, none, some, List, [], ◌∷◌, ◌++◌, length, take, leb, ◌==◌,
  if◌then◌else◌,
}
use my_common.Common.StateCode.{StateCode, no_error, init_failure, invalid_param, time_out}
use my_common.CommQue.{
  CommQue, Ret, success, failure, Timeout, no_wait, Wake, Outcome, returned, blocked, wait_loop,
  waits_full, waits_empty, take_full, take_empty, put_full, put_empty,
}

-- `T_Msg`: the id is a C string, the body a pointer that the queue passes on.
pub record Msg : Type 0 where
  pub command : ℕ
  pub msg_id : List ℕ
  pub body : Option ℕ
  pub call_id : ℕ

-- The queue, and what its slots hold, by the slot's pointer.
pub record MsgQueue : Type 0 where
  pub que : CommQue
  pub pool : ℕ → Msg

-- A send that returned its code, or that still waits.
pub data Send : Type 0 where
  sent : StateCode → MsgQueue → Send
  send_blocked : MsgQueue → Send

-- `SAFESTRCPY` of common/defs.h into `dest_size` bytes, the last for the NUL.
unfoldable pub safe_strcpy : ℕ → List ℕ → List ℕ
safe_strcpy dest_size src = if leb dest_size (length src) then take (dest_size - 1) src else src

-- What a slot holds behind `msg_queue_send`: `strMsgId` is a `String32`.
unfoldable pub stored : Msg → Msg
unfolding safe_strcpy
stored m = record m { msg_id = safe_strcpy 32 m.msg_id }

abbrev pub pool_write : (ℕ → Msg) → ℕ → Msg → ℕ → Msg
pool_write pool p m a = if a == p then m else pool a

-- `CommQue_GetEmpty` and `CommQue_GetFull` on the queue; a thread that waits in them may find that
-- others have changed the slots too.
abbrev pub on_que : (CommQue → Option ℕ × CommQue) → MsgQueue → Option ℕ × MsgQueue
on_que f q = let (p, c) = f q.que in (p, record q { que = c })

unfoldable pub que_get_empty : Timeout → List (Wake MsgQueue) → MsgQueue → Outcome MsgQueue
unfolding wait_loop waits_empty take_empty
que_get_empty = wait_loop (λ q. waits_empty q.que) (on_que take_empty)

unfoldable pub que_get_full : Timeout → List (Wake MsgQueue) → MsgQueue → Outcome MsgQueue
unfolding wait_loop waits_full take_full
que_get_full = wait_loop (λ q. waits_full q.que) (on_que take_full)

-- Steps 2 and 3 of `msg_queue_send`: the slot at `p` is filled and put full.
unfoldable pub send_slot : Msg → ℕ → MsgQueue → Send
unfolding stored put_full put_empty
send_slot m p q =
    let filled = pool_write q.pool p (stored m) in
    let (r, signals, c) = put_full (some p) q.que in
    elim r [
      | success ↦ sent no_error (record { que = c; pool = filled })
      | failure ↦ sent time_out (record { que = (put_empty (some p) c).2; pool = filled })
    ]

unfoldable pub send : Timeout → List (Wake MsgQueue) → Msg → MsgQueue → Send
unfolding que_get_empty send_slot
send t ws m q = elim (que_get_empty t ws q) [
  | blocked q' ↦ send_blocked q'
  | returned r q' ↦ elim r [ none ↦ sent time_out q' | some p ↦ send_slot m p q' ]
]

unfoldable pub receive : Timeout → List (Wake MsgQueue) → MsgQueue → Outcome MsgQueue
unfolding que_get_full
receive = que_get_full

-- The `int32_t` of `CommQue_PutEmpty` is returned as an `E_StateCode`.
unfoldable pub release_msg : Option ℕ → MsgQueue → StateCode × MsgQueue
unfolding put_empty
release_msg none q = (invalid_param, q)
release_msg (some p) q =
    let (r, signals, c) = put_empty (some p) q.que in
    (elim r [ success ↦ no_error | failure ↦ init_failure ], record q { que = c })

unfoldable pub pending_count : MsgQueue → ℕ
pending_count q = q.que.full_count

-- One round of `clear_queue`: the message at `p` loses its body, which is freed, and its slot is put
-- empty.
unfoldable pub clear_slot : ℕ → MsgQueue → Option ℕ × MsgQueue
unfolding put_empty
clear_slot p q =
    let body = (q.pool p).body in
    (
      body,
      record {
        que = (put_empty (some p) q.que).2;
        pool = pool_write q.pool p (record (q.pool p) { body = none });
      },
    )

abbrev pub also : Option ℕ → List ℕ → List ℕ
also none freed = freed
also (some b) freed = b ∷ freed

-- The loop of `clear_queue` with the bodies that it frees, newest first. Behind `fuel` rounds it
-- gives none.
unfoldable pub clear_queue : ℕ → List ℕ → MsgQueue → Option (List ℕ × MsgQueue)
unfolding que_get_full clear_slot
clear_queue zero freed q = none
clear_queue (suc fuel) freed q = elim (que_get_full no_wait [] q) [
  | blocked q' ↦ none
  | returned r q' ↦ elim r [
    | none ↦ some (freed, q')
    | some p ↦ let (b, q2) = clear_slot p q' in clear_queue fuel (also b freed) q2
  ]
]
