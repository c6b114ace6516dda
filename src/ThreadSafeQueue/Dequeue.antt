-- ===== src/ThreadSafeQueue/Dequeue.antt =====
-- `queue_dequeue_timeout` of common/thread_safe_queue.c against the list of the nodes.
use my_common.Common.{
  ℕ, ◌+◌, ◌^◌, ◌≡◌, ◌⊎◌, ◌<◌, refl, ap, ◌∙◌, false, true, Option, none, some, List, [], ◌∷◌, length,
  All, Bool-cases, inl, inr, arith, ◌==◌,
}
use my_common.Common.Heap.{store}
use my_common.Common.Words.{sub64}
use my_common.CommQue.{Timeout}
use my_common.ThreadSafeQueue.{
  Node, Store, WaitEnd, signalled, timed_out, wait_failed, Dequeued, dequeued, waiting, rear_after,
  waits, found_at, on_wait, is_no_wait, hand_over, unlink, dequeue,
}
use my_common.ThreadSafeQueue.Chain.{Cell, first, last, node, Chain-store, Holds}

abbrev pub item : Cell → ℕ × ℕ
item c = (c.data_ptr, c.data_size)

-- The queue behind the removal of its front node.
abbrev unlinked : Store → ℕ → Node → Store
unlinked s a n = record {
  queue = record s.queue {
    front = n.next;
    rear = rear_after n.next s.queue.rear;
    size = sub64 s.queue.size 1;
  };
  heap = store a none s.heap;
}

unlink-front :
    (s : Store) (a : ℕ) (n : Node)
    → s.queue.is_destroyed ≡ false
    → (s.queue.size == 0) ≡ false
    → s.queue.front ≡ some a
    → s.heap a ≡ some n
    → unlink s ≡ some (some (n.data_ptr, n.data_size), unlinked s a n)
unfolding unlink
unlink-front s a n ed es ef en = ground (arith, ed, es, ef, en)

rear_after-last : (cs : List Cell) (c : Cell) → rear_after (first cs none) (last (c ∷ cs)) ≡ last cs
rear_after-last [] c = refl
rear_after-last (d ∷ cs) c = refl

-- A queue that is not destroyed hands its front node's data over.
pub unlink-Holds :
    (s : Store) (c : Cell) (cs : List Cell)
    → Holds s (c ∷ cs)
    → s.queue.is_destroyed ≡ false
    → length cs + 1 < 2 ^ 64
    → (s' : Store) × (unlink s ≡ some (some (item c), s'))
      × Holds s' cs
      × (s'.queue.is_destroyed ≡ s.queue.is_destroyed)
unlink-Holds s c cs v live room = (
  unlinked s (c.addr) (node c (first cs none)),
  unlink-front s (c.addr) (node c (first cs none)) live (ground (arith, v.size_at)) v.front_at
      v.chain.0,
  record {
    front_at = refl;
    rear_at = ap (rear_after (first cs none)) v.rear_at ∙ rear_after-last cs c;
    size_at = omega (arith, v.size_at);
    chain = Chain-store (s.heap) (c.addr) none cs none v.distinct.0 v.chain.1;
    distinct = v.distinct.1;
  },
  refl,
)

unlink-destroyed : (s : Store) → s.queue.is_destroyed ≡ true → unlink s ≡ some (none, s)
unfolding unlink
unlink-destroyed s e = rw (e) refl

pub unlink-empty : (s : Store) → s.queue.size ≡ 0 → unlink s ≡ some (none, s)
unfolding unlink
unlink-empty s e = ground (arith, e)

-- A valid queue: it holds some nodes, whose number a `size_t` has.
pub record IsValid (s : Store) : Type 0 where
  pub cells : List Cell
  pub holds : Holds s cells
  pub room : length cells + 1 < 2 ^ 64

-- The memory `s` is the one that the call found first, or at the end of one of its waits.
abbrev pub Seen : Store → List WaitEnd → Store → Type 0
Seen s0 [] s = s ≡ s0
Seen s0 (w ∷ ws) s = (s ≡ s0) ⊎ Seen (found_at w) ws s

abbrev pub end_of : WaitEnd → Option Store
end_of (signalled s) = none
end_of (timed_out s) = some s
end_of (wait_failed s) = some s

-- One of the waits ended in `s` by its timeout or an error.
abbrev pub EndedIn : List WaitEnd → Store → Type 0
EndedIn [] s = ⊥
EndedIn (w ∷ ws) s = (end_of w ≡ some s) ⊎ EndedIn ws s

-- What a call may do: the data of the front node, the rest stays; null from a queue that is empty
-- or destroyed, or after a wait that ended without a signal; or it still waits at an empty queue.
pub data Answer (t : Timeout) (s0 : Store) (ws : List WaitEnd) : Option Dequeued → Type 0 where
  front_given :
      {s s' : Store} {c : Cell} {cs : List Cell}
      → Seen s0 ws s
      → Holds s (c ∷ cs)
      → s.queue.is_destroyed ≡ false
      → Holds s' cs
      → Answer t s0 ws (some (dequeued (some (item c)) s'))
  null_given :
      {s : Store}
      → Seen s0 ws s
      → (s.queue.is_destroyed ≡ true) ⊎ (s.queue.size ≡ 0)
      → Answer t s0 ws (some (dequeued none s))
  wait_ended : {s : Store} → EndedIn ws s → Answer t s0 ws (some (dequeued none s))
  still_waiting :
      {s : Store}
      → Seen s0 ws s
      → s.queue.size ≡ 0
      → is_no_wait t ≡ false
      → Answer t s0 ws (some (waiting s))

Seen-first : (s0 : Store) (ws : List WaitEnd) → Seen s0 ws s0
Seen-first s0 [] = refl
Seen-first s0 (w ∷ ws) = inl refl

module _ (t : Timeout) (s0 : Store) where
  hand_over-Answer : (ws : List WaitEnd) → IsValid s0 → Answer t s0 ws (hand_over (unlink s0))
  hand_over-Answer ws v = elim (Bool-cases (s0.queue.is_destroyed)) [
    | inl e ↦ rw (unlink-destroyed s0 e) (null_given (Seen-first s0 ws) (inl e))
    | inr e ↦ by_cells v.cells v.holds v.room e
  ]
    where
      by_cells :
          (cs : List Cell)
          → Holds s0 cs
          → length cs + 1 < 2 ^ 64
          → s0.queue.is_destroyed ≡ false
          → Answer t s0 ws (hand_over (unlink s0))
      by_cells [] h r e =
          rw (unlink-empty s0 h.size_at) (null_given (Seen-first s0 ws) (inr h.size_at))
      by_cells (c ∷ cs) h r e =
          let (s', eq, h', d) = unlink-Holds s0 c cs h e (omega arith) in
          rw (eq) (front_given (Seen-first s0 ws) h e h')

  later :
      {r : Option Dequeued} (w : WaitEnd) (ws : List WaitEnd)
      → Answer t (found_at w) ws r
      → Answer t s0 (w ∷ ws) r
  later w ws (front_given i h e h') = front_given (inr i) h e h'
  later w ws (null_given i e) = null_given (inr i) e
  later w ws (wait_ended i) = wait_ended (inr i)
  later w ws (still_waiting i e n) = still_waiting (inr i) e n

  on_wait-Answer :
      {r : Option Dequeued} (w : WaitEnd) (ws : List WaitEnd)
      → Answer t (found_at w) ws r
      → Answer t s0 (w ∷ ws) (on_wait w r)
  on_wait-Answer (signalled s) ws a = later (signalled s) ws a
  on_wait-Answer (timed_out s) ws a = wait_ended (inl refl)
  on_wait-Answer (wait_failed s) ws a = wait_ended (inl refl)

-- Whatever valid queues other threads leave at the ends of its waits, queue_dequeue_timeout reads
-- no null pointer and no freed node, and its answer is the data of the front node of a live queue
-- that it saw, with the other nodes left, or null from an empty or destroyed queue or after a
-- wait that ended without a signal, or it still waits, which it does only at an empty queue and
-- with a timeout other than 0.
pub dequeue-Answer :
    (t : Timeout) (ws : List WaitEnd) (s : Store)
    → IsValid s
    → All (λ w. IsValid (found_at w)) ws
    → Answer t s ws (dequeue t ws s)
unfolding dequeue waits
dequeue-Answer t [] s v h = elim (Bool-cases (waits t s)) [
  | inl e ↦ rw (e) (still_waiting refl (ground arith) (ground arith))
  | inr e ↦ rw (e) (hand_over-Answer t s [] v)
]
dequeue-Answer t (w ∷ ws) s v h = elim (Bool-cases (waits t s)) [
  | inl e ↦ rw (e) (on_wait-Answer t s w ws (dequeue-Answer t ws (found_at w) h.0 h.1))
  | inr e ↦ rw (e) (hand_over-Answer t s (w ∷ ws) v)
]
