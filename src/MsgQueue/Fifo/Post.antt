-- ===== src/MsgQueue/Fifo/Post.antt =====
-- `msg_queue_send` on the queue of messages: the message goes behind the pending ones.
use native.Mathlib.Nat.{mod-lt, mod-add-mod}
use native.Mathlib.Decide.{dec_lt}
use mathlib.Core.List.{map-append}
use my_common.Common.{
  ℕ, ◌+◌, ◌-◌, ◌*◌, ◌%◌, ◌^◌, ◌<◌, ◌≤◌, ◌≡◌, refl, sym, ap, ap₂, ◌∙◌, ◌≢◌, inl, inr, true, false,
  [], ◌∷◌, ◌++◌, map, length, length-map, All-zip, map_congr, arith, ◌==◌, Bool-cases,
}
use my_common.Common.Words.{add32, sub32}
use my_common.Common.StateCode.{no_error, time_out}
use my_common.Common.Window.{part-snoc, All-window-lt, All-window-ne, length-window}
use my_common.CommQue.{CommQue, no_wait, slot_ptr, waits_empty, put_full, take_empty}
use my_common.CommQue.Slots.{World, IsValid, slots_from}
use my_common.CommQue.Protocol.{got_empty, gave_full, Step-IsValid}
use my_common.CommQue.Ownership.{slot_ptr_apart}
use my_common.MsgQueue.{Msg, MsgQueue, sent, stored, pool_write, send}
use my_common.MsgQueue.Fifo.{post, Fifo, fifo_step, Client, client_step, world, Represents}

-- Different slots have different pointers.
pub slot_ptr_ne :
    (q : CommQue) (i j : ℕ)
    → 0 < q.element_size
    → q.max_count * q.element_size < 2 ^ 64
    → i < q.max_count
    → j < q.max_count
    → i ≢ j
    → slot_ptr q i ≢ slot_ptr q j
slot_ptr_ne q i j sized fits hi hj ne = elim (dec_lt i j) [
  | yes h ↦ omega (arith, slot_ptr_apart q j i fits hj h)
  | no h ↦ omega (arith, slot_ptr_apart q i j fits hi (omega arith))
]

-- The queue behind a send that finds a slot.
abbrev pub posted : Msg → MsgQueue → MsgQueue
posted m q =
    let c = q.que in
    record {
      que = record c {
        write = add32 c.write 1 % c.max_count;
        full_count = add32 c.full_count 1;
        empty_count = sub32 c.empty_count 1;
      };
      pool = pool_write q.pool (slot_ptr c c.write) (stored m);
    }

pub send-posted :
    (m : Msg) (q : MsgQueue)
    → waits_empty q.que ≡ false
    → q.que.is_destroyed ≡ false
    → send no_wait [] m q ≡ sent no_error (posted m q)
unfolding send
send-posted m q nw nd = ground arith

pub send-time_out :
    (m : Msg) (q : MsgQueue) → waits_empty q.que ≡ true → send no_wait [] m q ≡ sent time_out q
unfolding send
send-time_out m q w = ground arith

module _ {c : Client} {o r : ℕ} {s : Fifo} (rep : Represents c o r s) where
  abbrev pub w : World
  w = world c.queue.que o r

  pub length-held : length s.held ≡ r
  length-held =
      ap length rep.held_at
      ∙ length-map (slots_from w 0 r) (λ i. c.queue.pool (slot_ptr c.queue.que i))
      ∙ length-window c.queue.que.max_count ((o + 0) % c.queue.que.max_count) r

  pub length-pending : length s.pending ≡ c.queue.que.full_count
  length-pending =
      let f = c.queue.que.full_count in
      ap length rep.pending_at
      ∙ length-map (slots_from w r f) (λ i. c.queue.pool (slot_ptr c.queue.que i))
      ∙ length-window c.queue.que.max_count ((o + r) % c.queue.que.max_count) f

  posted-IsValid :
      (m : Msg) → waits_empty c.queue.que ≡ false → IsValid (world (posted m c.queue).que o r)
  unfolding take_empty put_full
  posted-IsValid m nw =
      let q = c.queue.que in
      let q1 = record q {
        write = add32 q.write 1 % q.max_count;
        empty_count = sub32 q.empty_count 1;
      } in
      let u : World = record { que = q1; oldest = o; reading = r; writing = 1 } in
      let v : IsValid u =
        Step-IsValid {u = u} rep.valid (got_empty nw rep.live (rw rep.live refl)) in
      Step-IsValid v (gave_full 0 (omega arith) refl)

  -- The write into the free slot changes no slot in use.
  pool-kept :
      (m : Msg) (i n : ℕ)
      → i + n ≤ r + c.queue.que.full_count
      → waits_empty c.queue.que ≡ false
      → map (λ j. (posted m c.queue).pool (slot_ptr c.queue.que j)) (slots_from w i n)
        ≡ map (λ j. c.queue.pool (slot_ptr c.queue.que j)) (slots_from w i n)
  unfolding waits_empty
  pool-kept m i n h nw =
      let q = c.queue.que in
      let size = q.max_count in
      let start = (o + i) % size in
      let k = r + q.full_count in
      let v = rep.valid in
      let start_in : start < size = mod-lt (o + i) v.nonempty in
      let behind : q.write ≡ (start + (k - i)) % size =
        v.write_at
        ∙ sym (mod-add-mod (o + i) size (k - i) ∙ ap (λ (t : ℕ). t % size) (omega arith)) in
      let write_in : q.write < size = omega (arith, behind, mod-lt (start + (k - i)) v.nonempty) in
      map_congr (λ j. (posted m c.queue).pool (slot_ptr q j)) (λ j. c.queue.pool (slot_ptr q j))
        (slots_from w i n)
        (All-zip (λ j. j ≢ q.write) (λ j. j < size) _ (slots_from w i n)
          (λ j ne lt. ground (arith, slot_ptr_ne q j q.write rep.sized rep.fits lt write_in ne))
          (All-window-ne size start n (k - i) start_in (omega arith) (ground arith) behind)
          (All-window-lt size start n start_in))

  -- The slot that the send fills becomes the last of the full ones.
  pending-posted :
      (m : Msg)
      → waits_empty c.queue.que ≡ false
      → map
          (λ i. (posted m c.queue).pool (slot_ptr c.queue.que i))
          (slots_from w r (add32 c.queue.que.full_count 1))
        ≡ s.pending ++ (stored m ∷ [])
  unfolding waits_empty
  pending-posted m nw =
      let q = c.queue.que in
      let f = q.full_count in
      let v = rep.valid in
      let value : ℕ → Msg = λ i. (posted m c.queue).pool (slot_ptr q i) in
      ap (map value) (
        part-snoc o v.nonempty r (r + f) (add32 f 1) f refl (ground arith)
        ∙ ap (λ (t : ℕ). slots_from w r f ++ (t ∷ []))
            (ap (λ (t : ℕ). (o + t) % q.max_count) (omega arith) ∙ sym v.write_at))
      ∙ map-append value (slots_from w r f) (q.write ∷ [])
      ∙ ap₂ ◌++◌ (pool-kept m r f (omega arith) nw ∙ sym rep.pending_at) (ground arith)

  -- A send refines the step of the specification.
  pub post_refines :
      (m : Msg)
      → ((client_step (post m) c).0 ≡ (fifo_step (post m) s).0)
        × Represents (client_step (post m) c).1 o r (fifo_step (post m) s).1
  unfolding client_step fifo_step waits_empty
  post_refines m = elim (Bool-cases (waits_empty c.queue.que)) [
    | inl full ↦
        let no_room : (length s.held + length s.pending == s.room) ≡ true =
          ground (arith, length-held, length-pending) in
        rw (send-time_out m c.queue full, no_room) (refl, rep)
    | inr nw ↦
        let room : (length s.held + length s.pending == s.room) ≡ false =
          ground (arith, length-held, length-pending) in
        rw (send-posted m c.queue nw rep.live, room)
          (
            refl,
            record {
              valid = posted-IsValid m nw;
              live = rep.live;
              sized = rep.sized;
              fits = rep.fits;
              room_at = rep.room_at;
              got_at = rep.got_at;
              held_at = rep.held_at ∙ sym (pool-kept m 0 r (omega arith) nw);
              pending_at = sym (pending-posted m nw);
            },
          )
  ]
