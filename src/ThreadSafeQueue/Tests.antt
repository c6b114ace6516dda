-- ===== src/ThreadSafeQueue/Tests.antt =====
-- The queue of common/thread_safe_queue.c on concrete calls.
use my_common.Common.{
  ℕ, ◌≡◌, refl, true, false, Option-cases, Option, none, some, List, [], ◌∷◌, arith, inl, inr, ◌==◌,
}
use my_common.Common.Heap.{Heap, store}
use my_common.CommQue.{success, failure, within}
use my_common.ThreadSafeQueue.{Node, Store, dequeue, signalled}
use my_common.ThreadSafeQueue.Chain.{Cell, node, Holds}
use my_common.ThreadSafeQueue.Dequeue.{IsValid, Answer, dequeue-Answer}
use my_common.ThreadSafeQueue.Remove.Loop.{Filtered, remove_wildcard-Filtered}
use my_common.ThreadSafeQueue.Clear.{clear, Freed, clear-Freed}
use my_common.ThreadSafeQueue.Refine.{
  Op, put, get, search_for, remove, count, wipe, Reply, code, got, removed, number, freed, FifoRun,
  run,
}
use my_common.ThreadSafeQueue.Refine.Runs.{run_refines}

-- A `malloc` with room for two nodes.
abbrev two_places : Heap Node → Option ℕ
two_places h = elim (h 1) [ none ↦ some 1 | some n ↦ elim (h 2) [ none ↦ some 2 | some m ↦ none ] ]

two_places-unused : (h : Heap Node) (a : ℕ) → two_places h ≡ some a → h a ≡ none
two_places-unused h a e = elim (Option-cases (h 1)) [
  | inl e1 ↦ ground (arith, e, e1)
  | inr (n, e1) ↦ elim (Option-cases (h 2)) [
    | inl e2 ↦ ground (arith, e, e1, e2)
    | inr (m, e2) ↦ ground (arith, e, e1, e2)
  ]
]

abbrev empty_queue : Store
empty_queue = record {
  queue = record { front = none; rear = none; size = 0; is_destroyed = false };
  heap = λ a. none;
}

empty_queue-Holds : Holds empty_queue []
empty_queue-Holds = record {
  front_at = refl;
  rear_at = refl;
  size_at = refl;
  chain = tt;
  distinct = tt;
}

abbrev calls : List Op
calls =
    put (some 10) 4
    ∷ (put (some 20) 8
        ∷ (put (some 30) 8
            ∷ (put none 8
                ∷ (search_for (λ d n. n == 8) true
                    ∷ (count
                        ∷ (remove (λ d n. n == 4) true
                            ∷ (get ∷ (get ∷ (put (some 40) 1 ∷ (wipe ∷ []))))))))))

run-calls :
    run two_places calls empty_queue
    ≡ some (
        code success
        ∷ (code success
            ∷ (code failure
                ∷ (code failure
                    ∷ (got (some (20, 8))
                        ∷ (number 2
                            ∷ (removed 1 ((10, 4) ∷ [])
                                ∷ (got (some (20, 8))
                                    ∷ (got none ∷ (code success ∷ (freed (40 ∷ []) ∷ [])))))))))))
unfolding run
run-calls = refl

run_refines_example :
    (rs : List Reply) × (run two_places calls empty_queue ≡ some rs)
    × FifoRun two_places calls [] rs
run_refines_example =
    run_refines two_places two_places-unused calls empty_queue []
      (record { cells = []; holds = empty_queue-Holds; items_at = refl; live = refl }) (omega arith)

abbrev cell_5 : Cell
cell_5 = record { addr = 5; data_ptr = 50; data_size = 4 }

abbrev cell_7 : Cell
cell_7 = record { addr = 7; data_ptr = 70; data_size = 8 }

abbrev cell_3 : Cell
cell_3 = record { addr = 3; data_ptr = 30; data_size = 8 }

abbrev three_cells : List Cell
three_cells = cell_5 ∷ (cell_7 ∷ (cell_3 ∷ []))

abbrev three_heap : Heap Node
three_heap =
    store 5 (some (node cell_5 (some 7)))
      (store 7 (some (node cell_7 (some 3))) (store 3 (some (node cell_3 none)) (λ a. none)))

abbrev three_nodes : Store
three_nodes = record {
  queue = record { front = some 5; rear = some 3; size = 3; is_destroyed = false };
  heap = three_heap;
}

three_nodes-Holds : Holds three_nodes three_cells
three_nodes-Holds = record {
  front_at = refl;
  rear_at = refl;
  size_at = refl;
  chain = (refl, (refl, (refl, tt)));
  distinct = ((omega arith, (omega arith, tt)), ((omega arith, tt), (tt, tt)));
}

three_nodes-IsValid : IsValid three_nodes
three_nodes-IsValid = record { cells = three_cells; holds = three_nodes-Holds; room = omega arith }

empty_queue-IsValid : IsValid empty_queue
empty_queue-IsValid = record { cells = []; holds = empty_queue-Holds; room = omega arith }

-- A thread waits at the empty queue, is woken once for nothing, and then finds three nodes.
dequeue-Answer_example :
    Answer
      (within 100)
      empty_queue
      (signalled empty_queue ∷ (signalled three_nodes ∷ []))
      (dequeue (within 100) (signalled empty_queue ∷ (signalled three_nodes ∷ [])) empty_queue)
dequeue-Answer_example =
    dequeue-Answer (within 100) (signalled empty_queue ∷ (signalled three_nodes ∷ [])) empty_queue
      empty_queue-IsValid (empty_queue-IsValid, (three_nodes-IsValid, tt))

remove_wildcard-Filtered_example : Filtered (λ d n. n == 8) 4 three_cells three_nodes
remove_wildcard-Filtered_example =
    remove_wildcard-Filtered (λ d n. n == 8) 4 three_cells three_nodes three_nodes-Holds
      (omega arith) (omega arith)

clear-Freed_example :
    (s' : Store) × (clear 4 three_nodes ≡ some (50 ∷ (70 ∷ (30 ∷ [])), s'))
    × Holds s' []
    × Freed three_cells three_heap s'.heap
    × (s'.queue.is_destroyed ≡ false)
clear-Freed_example = clear-Freed 4 three_cells three_nodes three_nodes-Holds (omega arith)
