-- ===== src/ThreadSafeQueue/Remove.antt =====
-- `queue_remove_wildcard` of common/thread_safe_queue.c.
pub mod Filter
pub mod Loop
use my_common.Common.{
  ℕ, zero, suc, ◌+◌, Bool, true, false, Option, none, some, List, [], ◌∷◌, ◌++◌, ◌==◌,
  if◌then◌else◌,
}
use my_common.Common.Heap.{Heap, store}
use my_common.Common.Words.{sub64}
use my_common.ThreadSafeQueue.{Node, Store, Notice, signal_cond}

-- The first loop, which counts the matches.
unfoldable pub count_from : ℕ → (ℕ → ℕ → Bool) → Option ℕ → Heap Node → Option ℕ
count_from zero match_func current h = none
count_from (suc fuel) match_func none h = some 0
count_from (suc fuel) match_func (some a) h = elim (h a) [
  | none ↦ none
  | some n ↦ elim (count_from fuel match_func n.next h) [
    | none ↦ none
    | some k ↦ some (if match_func n.data_ptr n.data_size then k + 1 else k)
  ]
]

-- The `QueueNode **prev`: the address of `queue->front`, or of the `next` of a node.
pub data Prev : Type 0 where
  at_front : Prev
  at_next : ℕ → Prev

-- `*prev = next`.
unfoldable pub set_prev : Prev → Option ℕ → Store → Option Store
set_prev at_front next s = some (record s { queue = record s.queue { front = next } })
set_prev (at_next p) next s = elim (s.heap p) [
  | none ↦ none
  | some n ↦ some (record s { heap = store p (some (record n { next = next })) s.heap })
]

-- The node that `prev` is a part of.
abbrev pub prev_node : Prev → Option ℕ
prev_node at_front = none
prev_node (at_next p) = some p

abbrev pub is_at : Option ℕ → ℕ → Bool
is_at none a = false
is_at (some b) a = b == a

-- One match of the second loop: the node at `a` is unlinked and freed.
unfoldable pub remove_at : Prev → ℕ → Node → Store → Option Store
unfolding set_prev
remove_at prev a n s = elim (set_prev prev n.next s) [
  | none ↦ none
  | some s1 ↦ some (record {
    queue = record s1.queue {
      rear = if is_at s1.queue.rear a then prev_node prev else s1.queue.rear;
      size = sub64 s1.queue.size 1;
    };
    heap = store a none s1.heap;
  })
]

-- The second loop, with the data pointers and sizes that it has written to the arrays.
unfoldable pub remove_from :
    ℕ → (ℕ → ℕ → Bool) → Prev → Option ℕ → List (ℕ × ℕ) → Store → Option (List (ℕ × ℕ) × Store)
unfolding remove_at
remove_from zero match_func prev current removed s = none
remove_from (suc fuel) match_func prev none removed s = some (removed, s)
remove_from (suc fuel) match_func prev (some a) removed s = elim (s.heap a) [
  | none ↦ none
  | some n ↦ elim (match_func n.data_ptr n.data_size) [
    | true ↦ elim (remove_at prev a n s) [
      | none ↦ none
      | some s' ↦
          remove_from fuel match_func prev n.next (removed ++ ((n.data_ptr, n.data_size) ∷ [])) s'
    ]
    | false ↦ remove_from fuel match_func (at_next a) n.next removed s
  ]
]

-- What the function returns: the count, the arrays and the queue.
pub record Removal : Type 0 where
  pub count : ℕ
  pub removed : List (ℕ × ℕ)
  pub notices : List Notice
  pub after : Store

-- `has_arrays` says whether both arrays find memory.
unfoldable pub remove_wildcard : ℕ → (ℕ → ℕ → Bool) → Bool → Store → Option Removal
unfolding count_from remove_from
remove_wildcard fuel match_func has_arrays s =
    elim (count_from fuel match_func s.queue.front s.heap) [
      | none ↦ none
      | some zero ↦ some (record { count = 0; removed = []; notices = []; after = s })
      | some (suc k) ↦ elim has_arrays [
        | false ↦ some (record { count = 0; removed = []; notices = []; after = s })
        | true ↦ elim (remove_from fuel match_func at_front s.queue.front [] s) [
          | none ↦ none
          | some (removed, s') ↦
              some (record {
                count = suc k;
                removed = removed;
                notices = signal_cond ∷ [];
                after = s';
              })
        ]
      ]
    ]
