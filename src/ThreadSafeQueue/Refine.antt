-- ===== src/ThreadSafeQueue/Refine.antt =====
-- The queue of common/thread_safe_queue.c against a list of data pointers with their sizes.
-- The calls come one at a time, on a queue that is not destroyed, and the dequeue does not wait.
pub mod Steps
pub mod Runs
use my_common.Common.{
  ℕ, ◌+◌, ◌≡◌, ◌≢◌, Bool, true, false, Option, none, some, List, [], ◌∷◌, ◌++◌, map, length, ◌==◌,
  if◌then◌else◌,
}
use my_common.Common.Heap.{Heap}
use my_common.CommQue.{Ret, success, failure, no_wait}
use my_common.ThreadSafeQueue.{
  Node, Store, Dequeued, dequeued, waiting, enqueue, dequeue, find_wildcard, size, is_empty, Notice,
}
use my_common.ThreadSafeQueue.Remove.{Removal, remove_wildcard}
use my_common.ThreadSafeQueue.Clear.{clear}

abbrev pub Item : Type 0
Item = ℕ × ℕ

-- A call; the Boolean says whether the copy, or the arrays, find memory.
pub data Op : Type 0 where
  put : Option ℕ → ℕ → Op
  get : Op
  search_for : (ℕ → ℕ → Bool) → Bool → Op
  remove : (ℕ → ℕ → Bool) → Bool → Op
  count : Op
  ask_empty : Op
  wipe : Op

pub data Reply : Type 0 where
  code : Ret → Reply
  got : Option Item → Reply
  removed : ℕ → List Item → Reply
  number : ℕ → Reply
  answer : Bool → Reply
  freed : List ℕ → Reply

abbrev pub first_match : (ℕ → ℕ → Bool) → List Item → Option Item
first_match p [] = none
first_match p ((d, n) ∷ xs) = let rest = first_match p xs in if p d n then some (d, n) else rest

abbrev pub matches : (ℕ → ℕ → Bool) → List Item → List Item
matches p [] = []
matches p ((d, n) ∷ xs) = if p d n then (d, n) ∷ matches p xs else matches p xs

abbrev pub rest_of : (ℕ → ℕ → Bool) → List Item → List Item
rest_of p [] = []
rest_of p ((d, n) ∷ xs) = if p d n then rest_of p xs else (d, n) ∷ rest_of p xs

-- The specification, in which a `put` with memory, data and a size appends.
pub data FifoStep (malloc : Heap Node → Option ℕ)
    : Op → List Item → Reply → List Item → Type 0 where
  put_queued :
      {d n : ℕ} {xs : List Item}
      → n ≢ 0
      → FifoStep malloc (put (some d) n) xs (code success) (xs ++ ((d, n) ∷ []))
  put_null : {n : ℕ} {xs : List Item} → FifoStep malloc (put none n) xs (code failure) xs
  put_no_data : {d : ℕ} {xs : List Item} → FifoStep malloc (put (some d) 0) xs (code failure) xs
  put_no_memory :
      {d n : ℕ} {xs : List Item} {h : Heap Node}
      → malloc h ≡ none
      → FifoStep malloc (put (some d) n) xs (code failure) xs
  get_front : {x : Item} {xs : List Item} → FifoStep malloc get (x ∷ xs) (got (some x)) xs
  get_nothing : FifoStep malloc get [] (got none) []
  searched :
      {p : ℕ → ℕ → Bool} {xs : List Item}
      → FifoStep malloc (search_for p true) xs (got (first_match p xs)) xs
  no_copy :
      {p : ℕ → ℕ → Bool} {xs : List Item} → FifoStep malloc (search_for p false) xs (got none) xs
  took :
      {p : ℕ → ℕ → Bool} {xs : List Item}
      → FifoStep malloc
          (remove p true)
          xs
          (removed (length (matches p xs)) (matches p xs))
          (rest_of p xs)
  no_array :
      {p : ℕ → ℕ → Bool} {xs : List Item} → FifoStep malloc (remove p false) xs (removed 0 []) xs
  counted : {xs : List Item} → FifoStep malloc count xs (number (length xs)) xs
  asked : {xs : List Item} → FifoStep malloc ask_empty xs (answer (length xs == 0)) xs
  wiped : {xs : List Item} → FifoStep malloc wipe xs (freed (map (λ x. x.0) xs)) []

pub data FifoRun (malloc : Heap Node → Option ℕ) : List Op → List Item → List Reply → Type 0 where
  ended : {xs : List Item} → FifoRun malloc [] xs []
  next :
      {o : Op} {os : List Op} {r : Reply} {rs : List Reply} {xs ys : List Item}
      → FifoStep malloc o xs r ys
      → FifoRun malloc os ys rs
      → FifoRun malloc (o ∷ os) xs (r ∷ rs)

-- The code, one call at a time; the loops get more rounds than the queue has nodes.
abbrev pub on_enqueue : Option (Ret × List Notice × Store) → Option (Reply × Store)
on_enqueue none = none
on_enqueue (some (r, notices, s)) = some (code r, s)

abbrev pub on_dequeue : Option Dequeued → Option (Reply × Store)
on_dequeue none = none
on_dequeue (some (dequeued r s)) = some (got r, s)
on_dequeue (some (waiting s)) = none

abbrev pub on_find : Store → Option (Option Item) → Option (Reply × Store)
on_find s none = none
on_find s (some r) = some (got r, s)

abbrev pub on_removal : Option Removal → Option (Reply × Store)
on_removal none = none
on_removal (some r) = some (removed r.count r.removed, r.after)

abbrev pub on_clear : Option (List ℕ × Store) → Option (Reply × Store)
on_clear none = none
on_clear (some (ds, s)) = some (freed ds, s)

unfoldable pub step : (Heap Node → Option ℕ) → Op → Store → Option (Reply × Store)
unfolding enqueue dequeue find_wildcard remove_wildcard size is_empty clear
step malloc (put d n) s = on_enqueue (enqueue malloc d n s)
step malloc get s = on_dequeue (dequeue no_wait [] s)
step malloc (search_for p b) s = on_find s (find_wildcard (s.queue.size + 1) p (λ a. b) s)
step malloc (remove p b) s = on_removal (remove_wildcard (s.queue.size + 1) p b s)
step malloc count s = some (number (size s), s)
step malloc ask_empty s = some (answer (is_empty s), s)
step malloc wipe s = on_clear (clear (s.queue.size + 1) s)

unfoldable pub run : (Heap Node → Option ℕ) → List Op → Store → Option (List Reply)
unfolding step
run malloc [] s = some []
run malloc (o ∷ os) s = elim (step malloc o s) [
  | none ↦ none
  | some (r, s') ↦ elim (run malloc os s') [ none ↦ none | some rs ↦ some (r ∷ rs) ]
]
