-- ===== src/MsgQueue/Fifo/Fetch.antt =====
-- `msg_queue_receive` and `msg_queue_release_msg` on the queue of messages: the oldest pending
-- message is received, and the oldest received one is released.
use native.Mathlib.Decide.{dec_lt}
use mathlib.Core.List.{map-append}
use my_common.Common.{
  ℕ, ◌+◌, ◌-◌, ◌%◌, ◌<◌, ◌≡◌, refl, sym, ap, ◌∙◌, inl, inr, true, false, none, some, [], ◌∷◌, ◌++◌,
  map, arith, Bool-cases,
}
use my_common.Common.Words.{add32, sub32}
use my_common.Common.Window.{part-cons, part-snoc, part-shift}
use my_common.CommQue.{no_wait, returned, slot_ptr, waits_full, take_full, put_empty}
use my_common.CommQue.Slots.{World, IsValid, slots_from}
use my_common.CommQue.Protocol.{got_full, gave_empty, Step-IsValid}
use my_common.MsgQueue.{Msg, MsgQueue, receive, release_msg}
use my_common.MsgQueue.Fifo.{fetch, done, Fifo, fifo_step, Client, client_step, world, Represents}

-- The queue behind a receive that finds a message.
abbrev pub fetched : MsgQueue → MsgQueue
fetched q =
    let c = q.que in
    record q {
      que = record c { read = add32 c.read 1 % c.max_count; full_count = sub32 c.full_count 1 };
    }

pub receive-fetched :
    (q : MsgQueue)
    → waits_full q.que ≡ false
    → q.que.is_destroyed ≡ false
    → receive no_wait [] q ≡ returned (some (slot_ptr q.que q.que.read)) (fetched q)
unfolding receive
receive-fetched q nw nd = ground arith

pub receive-none : (q : MsgQueue) → waits_full q.que ≡ true → receive no_wait [] q ≡ returned none q
unfolding receive
receive-none q e = ground arith

-- The queue behind a release.
abbrev pub released : MsgQueue → MsgQueue
released q = record q { que = record q.que { empty_count = add32 q.que.empty_count 1 } }

module _ {c : Client} {o r : ℕ} {s : Fifo} (rep : Represents c o r s) where
  abbrev w : World
  w = world c.queue.que o r

  abbrev value : ℕ → Msg
  value i = c.queue.pool (slot_ptr c.queue.que i)

  fetched-IsValid : waits_full c.queue.que ≡ false → IsValid (world (fetched c.queue).que o (r + 1))
  unfolding take_full
  fetched-IsValid nw = Step-IsValid rep.valid (got_full nw rep.live (rw rep.live refl))

  released-IsValid :
      0 < r → IsValid (world (released c.queue).que ((o + 1) % c.queue.que.max_count) (r - 1))
  unfolding put_empty
  released-IsValid h = Step-IsValid rep.valid (gave_empty 0 h refl)

  -- The slots received so far and the next one.
  reading-snoc : slots_from w 0 (r + 1) ≡ slots_from w 0 r ++ (c.queue.que.read ∷ [])
  reading-snoc =
      part-snoc o rep.valid.nonempty 0 r (r + 1) r (omega arith) refl
      ∙ ap (λ (t : ℕ). slots_from w 0 r ++ (t ∷ [])) (sym rep.valid.read_at)

  pending-cons :
      waits_full c.queue.que ≡ false
      → s.pending
        ≡ value c.queue.que.read ∷ map value (slots_from w (r + 1) (sub32 c.queue.que.full_count 1))
  unfolding waits_full
  pending-cons nw =
      let q = c.queue.que in
      rep.pending_at
      ∙ ap (map value) (
          part-cons o rep.valid.nonempty r (r + 1) q.full_count (sub32 q.full_count 1) refl
            (ground arith)
          ∙ ap (λ (t : ℕ). t ∷ slots_from w (r + 1) (sub32 q.full_count 1)) (sym rep.valid.read_at))

  pending-nil : waits_full c.queue.que ≡ true → s.pending ≡ []
  unfolding waits_full
  pending-nil e =
      let none_full : c.queue.que.full_count ≡ 0 = ground arith in
      rep.pending_at ∙ ap (λ (t : ℕ). map value (slots_from w r t)) none_full

  fetched-Represents :
      waits_full c.queue.que ≡ false
      → Represents
          (record {
            queue = fetched c.queue;
            got = c.got ++ (slot_ptr c.queue.que c.queue.que.read ∷ []);
          })
          o
          (r + 1)
          (record s {
            held = s.held ++ (value c.queue.que.read ∷ []);
            pending = map value (slots_from w (r + 1) (sub32 c.queue.que.full_count 1));
          })
  fetched-Represents nw = record {
    valid = fetched-IsValid nw;
    live = rep.live;
    sized = rep.sized;
    fits = rep.fits;
    room_at = rep.room_at;
    got_at =
        ap (λ l. l ++ (slot_ptr c.queue.que c.queue.que.read ∷ [])) rep.got_at
        ∙ sym (
            ap (map (slot_ptr c.queue.que)) reading-snoc
            ∙ map-append (slot_ptr c.queue.que) (slots_from w 0 r) (c.queue.que.read ∷ []));
    held_at =
        ap (λ l. l ++ (value c.queue.que.read ∷ [])) rep.held_at
        ∙ sym (
            ap (map value) reading-snoc
            ∙ map-append value (slots_from w 0 r) (c.queue.que.read ∷ []));
    pending_at = refl;
  }

  -- A receive refines the step of the specification.
  pub fetch_refines :
      (r' : ℕ) × ((client_step fetch c).0 ≡ (fifo_step fetch s).0)
      × Represents (client_step fetch c).1 o r' (fifo_step fetch s).1
  unfolding client_step fifo_step
  fetch_refines = elim (Bool-cases (waits_full c.queue.que)) [
    | inl none_full ↦ (
      r,
      rw (receive-none c.queue none_full, pending-nil none_full, fifo_step) refl,
      rw (receive-none c.queue none_full, pending-nil none_full, fifo_step) rep,
    )
    | inr nw ↦ (
      r + 1,
      rw (receive-fetched c.queue nw rep.live, pending-cons nw, fifo_step) refl,
      rw (receive-fetched c.queue nw rep.live, pending-cons nw, fifo_step) (fetched-Represents nw),
    )
  ]

  reading-cons : 0 < r → slots_from w 0 r ≡ (o + 0) % c.queue.que.max_count ∷ slots_from w 1 (r - 1)
  reading-cons h = part-cons o rep.valid.nonempty 0 1 r (r - 1) refl (omega arith)

  released-Represents :
      0 < r
      → Represents
          (record {
            queue = released c.queue;
            got = map (slot_ptr c.queue.que) (slots_from w 1 (r - 1));
          })
          ((o + 1) % c.queue.que.max_count)
          (r - 1)
          (record s { held = map value (slots_from w 1 (r - 1)) })
  released-Represents h =
      let q = c.queue.que in
      record {
        valid = released-IsValid h;
        live = rep.live;
        sized = rep.sized;
        fits = rep.fits;
        room_at = rep.room_at;
        got_at = ap (map (slot_ptr q)) (sym (part-shift o rep.valid.nonempty 0 1 (r - 1) refl));
        held_at = ap (map value) (sym (part-shift o rep.valid.nonempty 0 1 (r - 1) refl));
        pending_at =
            rep.pending_at
            ∙ ap (map value)
                (sym (part-shift o rep.valid.nonempty (r - 1) r q.full_count (omega arith)));
      }

  -- A release refines the step of the specification.
  pub done_refines :
      (o' r' : ℕ) × ((client_step done c).0 ≡ (fifo_step done s).0)
      × Represents (client_step done c).1 o' r' (fifo_step done s).1
  unfolding client_step fifo_step release_msg put_empty
  done_refines = elim (dec_lt 0 r) [
    | yes h ↦
        let q = c.queue.que in
        let got = rep.got_at ∙ ap (map (slot_ptr q)) (reading-cons h) in
        let held = rep.held_at ∙ ap (map value) (reading-cons h) in
        (
          (o + 1) % q.max_count,
          r - 1,
          rw (got, held, fifo_step) refl,
          rw (got, held, fifo_step) (released-Represents h),
        )
    | no h ↦
        let zero_r : r ≡ 0 = omega arith in
        let got : c.got ≡ [] =
          rep.got_at ∙ ap (λ (t : ℕ). map (slot_ptr c.queue.que) (slots_from w 0 t)) zero_r in
        let held : s.held ≡ [] =
          rep.held_at ∙ ap (λ (t : ℕ). map value (slots_from w 0 t)) zero_r in
        (
          o,
          r,
          rw (got, held, fifo_step) refl,
          rw (got, held, fifo_step)
              (record {
                valid = rep.valid;
                live = rep.live;
                sized = rep.sized;
                fits = rep.fits;
                room_at = rep.room_at;
                got_at = sym got ∙ rep.got_at;
                held_at = rep.held_at;
                pending_at = rep.pending_at;
              }),
        )
  ]
