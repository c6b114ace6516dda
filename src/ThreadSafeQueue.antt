-- ===== src/ThreadSafeQueue.antt =====
-- common/thread_safe_queue.c: a first-in first-out queue of data blocks in linked nodes.
-- Each function is the body that runs under the queue's mutex, with a queue that is there and a
-- mutex that can be locked. A result `none` stands for a read through a null pointer or a freed
-- node.
pub mod Chain
pub mod Enqueue
pub mod Dequeue
pub mod Find
pub mod Remove
pub mod Clear
pub mod Create
pub mod Refine
mod Tests
use my_common.Common.{
  ℕ, zero, suc, Bool, true, false, not, ◌&&◌, ◌||◌, Option, none, some, List, [], ◌∷◌, ◌++◌, ◌==◌,
  if◌then◌else◌,
}
use my_common.Common.Heap.{Heap, store}
use my_common.Common.Words.{add64, sub64}
use my_common.CommQue.{Ret, success, failure, Timeout, no_wait, forever, within}

-- `QueueNode`, with null as `none`.
pub record Node : Type 0 where
  pub data_ptr : ℕ
  pub data_size : ℕ
  pub next : Option ℕ

-- `Queue` without its mutex and condition variable.
pub record Queue : Type 0 where
  pub front : Option ℕ
  pub rear : Option ℕ
  pub size : ℕ
  pub is_destroyed : Bool

-- The queue and the memory of its nodes.
pub record Store : Type 0 where
  pub queue : Queue
  pub heap : Heap Node

-- The calls on the condition variable.
pub data Notice : Type 0 where
  signal_cond broadcast_cond : Notice

-- `queue->rear->next = node`, or `queue->front = node` in an empty queue; then the new rear.
unfoldable pub link : ℕ → Store → Option Store
link a s = elim (s.queue.rear) [
  | none ↦ some (record s {
    queue = record s.queue { front = some a; rear = some a; size = add64 s.queue.size 1 };
  })
  | some r ↦ elim (s.heap r) [
    | none ↦ none
    | some n ↦ some (record {
      queue = record s.queue { rear = some a; size = add64 s.queue.size 1 };
      heap = store r (some (record n { next = some a })) s.heap;
    })
  ]
]

-- `queue_enqueue` and `queue_enqueue_timeout`, which never waits; `malloc` gives the new node.
unfoldable pub enqueue :
    (Heap Node → Option ℕ) → Option ℕ → ℕ → Store → Option (Ret × List Notice × Store)
unfolding link
enqueue malloc none n s = some (failure, [], s)
enqueue malloc (some d) n s =
    if n == 0 || s.queue.is_destroyed then some (failure, [], s) else elim (malloc (s.heap)) [
      | none ↦ some (failure, [], s)
      | some a ↦
          let node : Node = record { data_ptr = d; data_size = n; next = none } in
          elim (link a (record s { heap = store a (some node) s.heap })) [
            | none ↦ none
            | some s' ↦ some (success, signal_cond ∷ [], s')
          ]
    ]

-- The end of a wait on the condition variable, with the memory that the thread then finds.
pub data WaitEnd : Type 0 where
  signalled timed_out wait_failed : Store → WaitEnd

-- A `queue_dequeue_timeout` that returned a data pointer and its size, or null and 0, or that still
-- waits when the recorded waits are used up.
pub data Dequeued : Type 0 where
  dequeued : Option (ℕ × ℕ) → Store → Dequeued
  waiting : Store → Dequeued

abbrev pub rear_after : Option ℕ → Option ℕ → Option ℕ
rear_after none rear = none
rear_after (some a) rear = rear

-- What `queue_dequeue_timeout` does behind its loop.
unfoldable pub unlink : Store → Option (Option (ℕ × ℕ) × Store)
unlink s =
    if s.queue.is_destroyed || s.queue.size == 0 then some (none, s) else elim (s.queue.front) [
      | none ↦ none
      | some a ↦ elim (s.heap a) [
        | none ↦ none
        | some n ↦ some (
          some (n.data_ptr, n.data_size),
          record {
            queue = record s.queue {
              front = n.next;
              rear = rear_after n.next s.queue.rear;
              size = sub64 s.queue.size 1;
            };
            heap = store a none s.heap;
          },
        )
      ]
    ]

abbrev pub is_no_wait : Timeout → Bool
is_no_wait no_wait = true
is_no_wait forever = false
is_no_wait (within ms) = false

unfoldable pub waits : Timeout → Store → Bool
waits t s = s.queue.size == 0 && (not s.queue.is_destroyed && not (is_no_wait t))

abbrev pub found_at : WaitEnd → Store
found_at (signalled s) = s
found_at (timed_out s) = s
found_at (wait_failed s) = s

abbrev pub on_wait : WaitEnd → Option Dequeued → Option Dequeued
on_wait (signalled s) rest = rest
on_wait (timed_out s) rest = some (dequeued none s)
on_wait (wait_failed s) rest = some (dequeued none s)

abbrev pub hand_over : Option (Option (ℕ × ℕ) × Store) → Option Dequeued
hand_over none = none
hand_over (some (r, s)) = some (dequeued r s)

unfoldable pub dequeue : Timeout → List WaitEnd → Store → Option Dequeued
unfolding waits unlink
dequeue t [] s = if waits t s then some (waiting s) else hand_over (unlink s)
dequeue t (w ∷ ws) s =
    let rest = dequeue t ws (found_at w) in
    if waits t s then on_wait w rest else hand_over (unlink s)

-- `queue_find_wildcard` from a node on, with `match_func` on a data pointer and its size. The copy
-- that it gives is named by the pointer that it copies; `has_room` says whether the `malloc` of the
-- copy succeeds at a node.
unfoldable pub find_from :
    ℕ → (ℕ → ℕ → Bool) → (ℕ → Bool) → Option ℕ → Heap Node → Option (Option (ℕ × ℕ))
find_from zero match_func has_room current h = none
find_from (suc fuel) match_func has_room none h = some none
find_from (suc fuel) match_func has_room (some a) h = elim (h a) [
  | none ↦ none
  | some n ↦
      let rest = find_from fuel match_func has_room n.next h in
      if match_func n.data_ptr n.data_size && has_room a
      then some (some (n.data_ptr, n.data_size))
      else rest
]

unfoldable pub find_wildcard : ℕ → (ℕ → ℕ → Bool) → (ℕ → Bool) → Store → Option (Option (ℕ × ℕ))
unfolding find_from
find_wildcard fuel match_func has_room s = find_from fuel match_func has_room s.queue.front s.heap

unfoldable pub is_empty : Store → Bool
is_empty s = s.queue.size == 0

unfoldable pub size : Store → ℕ
size s = s.queue.size
