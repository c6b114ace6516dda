-- ===== src/ModuleManager/Round.antt =====
-- One message through the ring: its send, and the round of `process_framework_message_queue` that
-- hands it out.
use my_common.Common.{
  ℕ, suc, ◌+◌, ◌<◌, Bool, true, false, Option, some, List, [], ◌∷◌, ◌≡◌, refl, ap, ap₂, ◌∙◌, arith,
}
use my_common.Common.Words.{mul64}
use my_common.Common.StateCode.{no_error}
use my_common.CommQue.{
  CommQue, Timeout, no_wait, Wake, finish, wait_loop, waits_full, waits_empty, take_full,
  take_empty, put_full, put_empty, slot_ptr,
}
use my_common.ModuleManager.{Context}
use my_common.ModuleManager.Message.{ModuleMsg, Bytes, read_msg, copy_msg}
use my_common.ModuleManager.Dispatch.{
  SlotQueue, sent, fill_slot, send_bytes, on_ring, dispatch, Call, Act, run_calls, process_queue,
  Processed, slot_write, also_seen, release_slot,
}

-- A wait whose test fails takes at once.
wait_loop_now :
    {S : Type 0} (waits : S → Bool) (take : S → Option ℕ × S) (t : Timeout) (ws : List (Wake S))
    (q : S)
    → waits q ≡ false
    → wait_loop waits take t ws q ≡ finish (take q)
unfolding wait_loop
wait_loop_now waits take t [] q e = rw e refl
wait_loop_now waits take t (w ∷ ws) q e = rw e refl

-- A live queue with a free slot and nothing pending.
pub record IsIdle (q : CommQue) : Type 0 where
  pub live : q.is_destroyed ≡ false
  pub nothing : q.full_count ≡ 0
  pub free : 0 < q.empty_count
  pub level : q.read ≡ q.write

-- What the slot of the next message holds.
abbrev pub old_slot : SlotQueue → Bytes
old_slot q = q.slots (slot_ptr q.que q.que.write)

-- The handlers leave the framework and the queue as they are.
abbrev pub IsQuiet : Act → Type 0
IsQuiet act = (k : Call) (m : ModuleMsg) (s : Bool × SlotQueue) → act k m s ≡ s

run_calls-quiet :
    (act : Act)
    → IsQuiet act
    → (m : ModuleMsg) (ks : List Call) (s : Bool × SlotQueue) → run_calls act m ks s ≡ s
run_calls-quiet act quiet m [] s = refl
run_calls-quiet act quiet m (k ∷ ks) s = run_calls-quiet act quiet m ks (act k m s) ∙ quiet k m s

pub dispatch_congr :
    (c : Context) (m n : ModuleMsg)
    → m.receiver ≡ n.receiver
    → m.msg_type ≡ n.msg_type
    → dispatch c m ≡ dispatch c n
unfolding dispatch
dispatch_congr c m n r t = rw (r, t) refl

-- The queue behind the send, and behind the processing of its one message.
abbrev pub filled : Bytes → SlotQueue → SlotQueue
filled b q = fill_slot b (slot_ptr q.que q.que.write) (on_ring take_empty q).1

pub send_bytes_now :
    (t : Timeout) (ws : List (Wake SlotQueue)) (freed : List ℕ) (b : Bytes) (q : SlotQueue)
    → IsIdle q.que
    → send_bytes t ws freed b q ≡ sent no_error [] (filled b q)
unfolding send_bytes waits_empty
send_bytes_now t ws freed b q v =
    rw (wait_loop_now (λ s. waits_empty s.que) (on_ring take_empty) t ws q (ground (arith, v.free)))
      (rw v.live refl)

-- Nothing pending ends the loop.
process_none :
    (fuel : ℕ) (act : Act) (c : Context) (q : SlotQueue)
    → q.que.full_count ≡ 0
    → q.que.is_destroyed ≡ false
    → process_queue (suc fuel) act c (true, q) ≡ some ([], true, q)
unfolding process_queue waits_full wait_loop
process_none fuel act c q none_full live = rw (none_full, live) refl

-- The first pending message is read from its slot and dispatched.
process_first :
    (fuel : ℕ) (act : Act) (c : Context) (q : SlotQueue) (k : ℕ)
    → IsQuiet act
    → q.que.full_count ≡ k + 1
    → q.que.is_destroyed ≡ false
    → process_queue (suc fuel) act c (true, q)
      ≡ also_seen
          (
            read_msg (q.slots (slot_ptr q.que q.que.read)),
            dispatch c (read_msg (q.slots (slot_ptr q.que q.que.read))),
          )
          (process_queue fuel act c
            (release_slot (slot_ptr q.que q.que.read) (true, (on_ring take_full q).1)))
unfolding process_queue waits_full
process_first fuel act c q k quiet e live =
    rw (wait_loop_now (λ s. waits_full s.que) (on_ring take_full) no_wait [] q (ground arith))
      (rw live (rw (run_calls-quiet act quiet) refl))

slot_write-at : (slots : ℕ → Bytes) (p p' : ℕ) (b : Bytes) → p' ≡ p → slot_write slots p b p' ≡ b
slot_write-at slots p p' b e = rw e (ground arith)

filled-slot :
    (b : Bytes) (q : SlotQueue)
    → IsIdle q.que
    → (filled b q).slots (slot_ptr (filled b q).que (filled b q).que.read) ≡ copy_msg b (old_slot q)
unfolding fill_slot take_empty put_full
filled-slot b q v =
    slot_write-at q.slots (slot_ptr q.que q.que.write) _ (copy_msg b (old_slot q))
      (rw v.live (ap (λ (t : ℕ). mul64 t q.que.element_size) v.level))

-- The message counts as full until it is taken.
filled-full :
    (b : Bytes) (q : SlotQueue)
    → IsIdle q.que
    → ((filled b q).que.full_count ≡ 0 + 1) × ((filled b q).que.is_destroyed ≡ false)
unfolding fill_slot take_empty put_full
filled-full b q v = ground (arith, v.nothing, v.live)

taken-full :
    (p : ℕ) (q : SlotQueue)
    → q.que.full_count ≡ 0 + 1
    → q.que.is_destroyed ≡ false
    → ((release_slot p (true, (on_ring take_full q).1)).1.que.full_count ≡ 0)
      × ((release_slot p (true, (on_ring take_full q).1)).1.que.is_destroyed ≡ false)
unfolding take_full put_empty
taken-full p q e live = ground arith

pub process_one :
    (act : Act) (c : Context) (b : Bytes) (q : SlotQueue)
    → IsQuiet act
    → IsIdle q.que
    → (left : SlotQueue) × (process_queue 2 act c (true, filled b q)
        ≡ some (
          (read_msg (copy_msg b (old_slot q)), dispatch c (read_msg (copy_msg b (old_slot q))))
              ∷ [],
          true,
          left,
        ))
process_one act c b q quiet v =
    let F = filled b q in
    let (one, live) = filled-full b q v in
    let p = slot_ptr F.que F.que.read in
    let (none_full, live') = taken-full p F one live in
    (
      (release_slot p (true, (on_ring take_full F).1)).1,
      process_first 1 act c F 0 quiet one live
          ∙ ap₂
              (λ (x : Bytes) (o : Option Processed).
                also_seen (read_msg x, dispatch c (read_msg x)) o)
              (filled-slot b q v)
              (process_none 0 act c (release_slot p (true, (on_ring take_full F).1)).1 none_full
                live'),
    )
