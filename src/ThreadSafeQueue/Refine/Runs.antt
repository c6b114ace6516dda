-- ===== src/ThreadSafeQueue/Refine/Runs.antt =====
-- Every run of calls on the queue of common/thread_safe_queue.c is a run of the specification.
use my_common.Common.{
  ℕ, ◌+◌, ◌^◌, ◌≡◌, ◌<◌, ◌≤◌, refl, Bool, Option, none, some, List, [], ◌∷◌, length, length-append,
  arith,
}
use my_common.Common.Heap.{Heap}
use my_common.ThreadSafeQueue.{Node, Store}
use my_common.ThreadSafeQueue.Refine.{
  Item, Op, Reply, rest_of, FifoStep, put_queued, put_null, put_no_data, put_no_memory, get_front,
  get_nothing, searched, no_copy, took, no_array, counted, asked, wiped, FifoRun, ended, next, step,
  run,
}
use my_common.ThreadSafeQueue.Refine.Steps.{Represents, step-Does}

length-rest_of : (p : ℕ → ℕ → Bool) (xs : List Item) → length (rest_of p xs) ≤ length xs
length-rest_of p [] = omega arith
length-rest_of p (x ∷ xs) = ground (arith, length-rest_of p xs)

module _ (malloc : Heap Node → Option ℕ) where
  grows_by_one :
      {o : Op} {xs ys : List Item} {r : Reply}
      → FifoStep malloc o xs r ys
      → length ys ≤ length xs + 1
  grows_by_one (put_queued {d} {n} {xs} e) = omega (arith, length-append xs ((d, n) ∷ []))
  grows_by_one put_null = omega arith
  grows_by_one put_no_data = omega arith
  grows_by_one (put_no_memory e) = omega arith
  grows_by_one get_front = omega arith
  grows_by_one get_nothing = omega arith
  grows_by_one searched = omega arith
  grows_by_one no_copy = omega arith
  grows_by_one (took {p} {xs}) = omega (arith, length-rest_of p xs)
  grows_by_one no_array = omega arith
  grows_by_one counted = omega arith
  grows_by_one asked = omega arith
  grows_by_one wiped = omega arith

  run-cons :
      (o : Op) (os : List Op) (s s' : Store) (r : Reply) (rs : List Reply)
      → step malloc o s ≡ some (r, s')
      → run malloc os s' ≡ some rs
      → run malloc (o ∷ os) s ≡ some (r ∷ rs)
  unfolding run
  run-cons o os s s' r rs e f = ground (arith, e, f)

  -- From a queue in memory that represents a list of items and is not destroyed, any run of
  -- enqueues, dequeues that do not wait, searches, removals, queries and clears reads no null
  -- pointer and no freed node, and every reply is that of a first-in first-out list of items,
  -- if malloc gives unused addresses and the counts fit a size_t.
  pub run_refines :
      ((h : Heap Node) (a : ℕ) → malloc h ≡ some a → h a ≡ none)
      → (os : List Op) (s : Store) (xs : List Item) → Represents s xs
      → length xs + length os < 2 ^ 64
      → (rs : List Reply) × (run malloc os s ≡ some rs) × FifoRun malloc os xs rs
  unfolding run
  run_refines fresh [] s xs rep room = ([], refl, ended)
  run_refines fresh (o ∷ os) s xs rep room =
      let (r, s', ys, e, f, rep') = step-Does malloc fresh o s xs rep (omega arith) in
      let (rs, e', f') = run_refines fresh os s' ys rep' (omega (arith, grows_by_one f)) in
      (r ∷ rs, run-cons o os s s' r rs e e', next f f')
