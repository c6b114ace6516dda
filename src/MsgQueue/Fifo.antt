-- ===== src/MsgQueue/Fifo.antt =====
-- The message queue of msgqueue.c against a bounded first-in first-out queue of messages.
-- One thread at a time calls it, without waiting, and releases the messages in the order in which
-- it received them.
pub mod Post
pub mod Fetch
pub mod Refine
use my_common.Common.{
  ℕ, ◌+◌, ◌*◌, ◌^◌, ◌<◌, ◌≡◌, false, Option, none, some, List, [], ◌∷◌, ◌++◌, map, length, ◌==◌,
  if◌then◌else◌,
}
use my_common.Common.StateCode.{StateCode, no_error, invalid_param, time_out}
use my_common.CommQue.{CommQue, Outcome, no_wait, returned, blocked, slot_ptr}
use my_common.CommQue.Slots.{World, IsValid, slots_from}
use my_common.MsgQueue.{Msg, MsgQueue, Send, sent, send_blocked, stored, send, receive, release_msg}

-- What a client asks for, and what it sees of each call.
pub data Op : Type 0 where
  post : Msg → Op
  fetch : Op
  done : Op

pub data Reply : Type 0 where
  code : StateCode → Reply
  message : Option Msg → Reply

-- The specification: messages received and not released, messages pending, and the room for both.
pub record Fifo : Type 0 where
  pub held : List Msg
  pub pending : List Msg
  pub room : ℕ

unfoldable pub fifo_step : Op → Fifo → Reply × Fifo
unfolding stored
fifo_step (post m) s =
    if length s.held + length s.pending == s.room
    then (code time_out, s)
    else (code no_error, record s { pending = s.pending ++ (stored m ∷ []) })
fifo_step fetch s = elim (s.pending) [
  | [] ↦ (message none, s)
  | m ∷ rest ↦ (message (some m), record s { held = s.held ++ (m ∷ []); pending = rest })
]
fifo_step done s = elim (s.held) [
  | [] ↦ (code invalid_param, s)
  | m ∷ rest ↦ (code no_error, record s { held = rest })
]

-- A client of the code: the queue, and the pointers that it received, oldest first.
pub record Client : Type 0 where
  pub queue : MsgQueue
  pub got : List ℕ

abbrev sent_reply : Client → Send → Reply × Client
sent_reply c (sent r q) = (code r, record c { queue = q })
sent_reply c (send_blocked q) = (code time_out, record c { queue = q })

abbrev received_reply : Client → Outcome MsgQueue → Reply × Client
received_reply c (returned none q) = (message none, record c { queue = q })
received_reply c (returned (some p) q) =
    (message (some (q.pool p)), record { queue = q; got = c.got ++ (p ∷ []) })
received_reply c (blocked q) = (message none, record c { queue = q })

-- A client with no message to release passes NULL.
abbrev released_reply : Client → List ℕ → Reply × Client
released_reply c [] = let (r, q) = release_msg none c.queue in (code r, record c { queue = q })
released_reply c (p ∷ ps) =
    let (r, q) = release_msg (some p) c.queue in (code r, record { queue = q; got = ps })

unfoldable pub client_step : Op → Client → Reply × Client
unfolding send receive release_msg
client_step (post m) c = sent_reply c (send no_wait [] m c.queue)
client_step fetch c = received_reply c (receive no_wait [] c.queue)
client_step done c = released_reply c c.got

unfoldable pub fifo_run : List Op → Fifo → List Reply
unfolding fifo_step
fifo_run [] s = []
fifo_run (o ∷ os) s = let (r, s') = fifo_step o s in r ∷ fifo_run os s'

unfoldable pub client_run : List Op → Client → List Reply
unfolding client_step
client_run [] c = []
client_run (o ∷ os) c = let (r, c') = client_step o c in r ∷ client_run os c'

-- The world of the slots when no producer holds one.
abbrev pub world : CommQue → ℕ → ℕ → World
world q o r = record { que = q; oldest = o; reading = r; writing = 0 }

-- The queue is valid and live with `r` received slots from place `o` on; its slots have a size and
-- fit the address space; the client holds the pointers of the received slots; and what the slots
-- hold is what the specification says.
pub record Represents (c : Client) (o r : ℕ) (s : Fifo) : Type 0 where
  pub valid : IsValid (world c.queue.que o r)
  pub live : c.queue.que.is_destroyed ≡ false
  pub sized : 0 < c.queue.que.element_size
  pub fits : c.queue.que.max_count * c.queue.que.element_size < 2 ^ 64
  pub room_at : s.room ≡ c.queue.que.max_count
  pub got_at : c.got ≡ map (slot_ptr c.queue.que) (slots_from (world c.queue.que o r) 0 r)
  pub held_at :
      s.held
      ≡ map (λ i. c.queue.pool (slot_ptr c.queue.que i)) (slots_from (world c.queue.que o r) 0 r)
  pub pending_at :
      s.pending
      ≡ map
          (λ i. c.queue.pool (slot_ptr c.queue.que i))
          (slots_from (world c.queue.que o r) r c.queue.que.full_count)
