-- ===== src/MsgQueue/Drain.antt =====
-- `clear_queue` of msgqueue.c: it ends, empties the queue and frees each pending body once.
use native.Mathlib.Nat.{mod-lt, mod-add-mod, mod-eq_of_lt, add-mod_right}
use my_common.Common.{
  ℕ, zero, suc, ◌+◌, ◌-◌, ◌*◌, ◌%◌, ◌^◌, ◌<◌, ◌≤◌, ◌≡◌, ◌≢◌, refl, sym, ap, ◌∙◌, inl, inr, true,
  false, none, some, List, [], ◌∷◌, arith, All, All-zip, Bool-cases,
}
use my_common.Common.Words.{add32, sub32, mul64}
use my_common.Common.Window.{window, All-window-ne, All-window-lt}
use my_common.CommQue.{CommQue, slot_ptr, waits_full}
use my_common.MsgQueue.{Msg, MsgQueue, clear_queue, also, pool_write}
use my_common.MsgQueue.Fifo.Post.{slot_ptr_ne}

-- The bodies in the given slots, put before `freed` one by one.
unfoldable pub bodies : ℕ → (ℕ → Msg) → List ℕ → List ℕ → List ℕ
bodies size pool [] freed = freed
bodies size pool (s ∷ ss) freed = bodies size pool ss (also (pool (mul64 s size)).body freed)

bodies_congr :
    (size : ℕ) (pool pool' : ℕ → Msg) (ss freed : List ℕ)
    → All (λ s. pool' (mul64 s size) ≡ pool (mul64 s size)) ss
    → bodies size pool' ss freed ≡ bodies size pool ss freed
unfolding bodies
bodies_congr size pool pool' [] freed h = refl
bodies_congr size pool pool' (s ∷ ss) freed h =
    ap (λ (m : Msg). bodies size pool' ss (also m.body freed)) h.0
    ∙ bodies_congr size pool pool' ss (also (pool (mul64 s size)).body freed) h.1

-- The queue behind one round.
abbrev drained : MsgQueue → MsgQueue
drained q =
    let c = q.que in
    let p = slot_ptr c c.read in
    record {
      que = record c {
        read = add32 c.read 1 % c.max_count;
        full_count = sub32 c.full_count 1;
        empty_count = add32 c.empty_count 1;
      };
      pool = pool_write q.pool p (record (q.pool p) { body = none });
    }

clear_queue-stop :
    (fuel : ℕ) (freed : List ℕ) (q : MsgQueue)
    → waits_full q.que ≡ true
    → clear_queue (suc fuel) freed q ≡ some (freed, q)
unfolding clear_queue
clear_queue-stop fuel freed q e = ground arith

clear_queue-round :
    (fuel : ℕ) (freed : List ℕ) (q : MsgQueue)
    → waits_full q.que ≡ false
    → q.que.is_destroyed ≡ false
    → clear_queue (suc fuel) freed q
      ≡ clear_queue fuel (also (q.pool (slot_ptr q.que q.que.read)).body freed) (drained q)
unfolding clear_queue
clear_queue-round fuel freed q nw nd = ground arith

-- A live queue whose slots have a size and fit the address space, with room for its counts.
pub record CanDrain (c : CommQue) : Type 0 where
  pub live : c.is_destroyed ≡ false
  pub small : c.max_count ≤ 2 ^ 31
  pub read_in : c.read < c.max_count
  pub counts : c.full_count + c.empty_count ≤ c.max_count
  pub sized : 0 < c.element_size
  pub fits : c.max_count * c.element_size < 2 ^ 64

drained-CanDrain :
    (q : MsgQueue) → CanDrain q.que → waits_full q.que ≡ false → CanDrain (drained q).que
unfolding waits_full
drained-CanDrain q v nw =
    ground (arith, mod-lt (add32 q.que.read 1) {m = q.que.max_count} (omega arith))

-- What `clear_queue` leaves: freed bodies, no full slot, and the other slots empty.
pub record Drained (q : MsgQueue) (freed : List ℕ) (freed' : List ℕ) (q' : MsgQueue) : Type 0 where
  pub all_freed :
      freed'
      ≡ bodies q.que.element_size q.pool (window q.que.max_count q.que.read q.que.full_count) freed
  pub none_full : q'.que.full_count ≡ 0
  pub all_empty : q'.que.empty_count ≡ q.que.full_count + q.que.empty_count

-- The full slots behind the first.
abbrev next_slots : CommQue → List ℕ
next_slots c = window c.max_count (add32 c.read 1 % c.max_count) (sub32 c.full_count 1)

module _ (q : MsgQueue) (v : CanDrain q.que) (nw : waits_full q.que ≡ false) where
  -- The write of one round leaves the later slots alone.
  later_kept :
      All (λ s. (drained q).pool (slot_ptr q.que s) ≡ q.pool (slot_ptr q.que s)) (next_slots q.que)
  unfolding waits_full
  later_kept =
      let c = q.que in
      let size = c.max_count in
      let start = add32 c.read 1 % size in
      let n = sub32 c.full_count 1 in
      let fewer : n < size = ground arith in
      let start_in : start < size = mod-lt (add32 c.read 1) (omega arith) in
      let round : c.read ≡ (start + (size - 1)) % size = sym (
        mod-add-mod (add32 c.read 1) size (size - 1)
        ∙ ap (λ (t : ℕ). t % size) (omega arith)
        ∙ add-mod_right c.read size
        ∙ mod-eq_of_lt v.read_in) in
      All-zip (λ s. s ≢ c.read) (λ s. s < size) _ (next_slots q.que)
        (λ s ne lt. ground (arith, slot_ptr_ne c s c.read v.sized v.fits lt v.read_in ne))
        (All-window-ne size start n (size - 1) start_in (omega (arith, fewer)) (omega arith) round)
        (All-window-lt size start n start_in)

  Drained-round :
      (freed freed' : List ℕ) (q' : MsgQueue)
      → Drained (drained q) (also (q.pool (slot_ptr q.que q.que.read)).body freed) freed' q'
      → Drained q freed freed' q'
  unfolding waits_full bodies
  Drained-round freed freed' q' d =
      let c = q.que in
      let some_full : c.full_count ≡ suc (sub32 c.full_count 1) = ground arith in
      let first = also (q.pool (slot_ptr c c.read)).body freed in
      record {
        all_freed =
            d.all_freed
            ∙ bodies_congr c.element_size q.pool (drained q).pool (next_slots q.que) first
                later_kept
            ∙ ap
                (λ (t : ℕ).
                  bodies c.element_size q.pool
                    (window c.max_count (t % c.max_count) (sub32 c.full_count 1)) first)
                (omega arith)
            ∙ ap (λ (t : ℕ). bodies c.element_size q.pool (window c.max_count c.read t) freed)
                (sym some_full);
        none_full = d.none_full;
        all_empty = omega (arith, d.all_empty, some_full);
      }

-- With more rounds than full slots the loop of clear_queue ends on any live queue with its counts
-- in range: it has freed the body of each full slot once, in order, no slot is full behind it,
-- and the slots that were full count as empty.
pub clear_queue-total :
    (fuel : ℕ) (freed : List ℕ) (q : MsgQueue)
    → CanDrain q.que
    → q.que.full_count < fuel
    → (freed' : List ℕ) × (q' : MsgQueue) × (clear_queue fuel freed q ≡ some (freed', q'))
      × Drained q freed freed' q'
unfolding waits_full bodies
clear_queue-total zero freed q v h = absurd (omega arith)
clear_queue-total (suc fuel) freed q v h = elim (Bool-cases (waits_full q.que)) [
  | inl e ↦
      let z : q.que.full_count ≡ 0 = ground arith in
      (
        freed,
        q,
        clear_queue-stop fuel freed q e,
        record { all_freed = rw z refl; none_full = z; all_empty = omega arith },
      )
  | inr nw ↦
      let first = also (q.pool (slot_ptr q.que q.que.read)).body freed in
      let (freed', q', e, d) =
        clear_queue-total fuel first (drained q) (drained-CanDrain q v nw) (ground arith) in
      (
        freed',
        q',
        clear_queue-round fuel freed q nw v.live ∙ e,
        Drained-round q v nw freed freed' q' d,
      )
]
