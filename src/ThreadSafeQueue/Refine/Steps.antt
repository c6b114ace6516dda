-- ===== src/ThreadSafeQueue/Refine/Steps.antt =====
-- Each call on the queue of common/thread_safe_queue.c does a step of the specification.
use my_common.Common.{
  map-append, ℕ, zero, suc, ◌+◌, ◌^◌, ◌≡◌, ◌≢◌, ◌<◌, refl, sym, ap, ◌∙◌, subst, Bool, true, false,
  ◌&&◌, Option, none, some, List, [], ◌∷◌, ◌++◌, map, length, length-map, Option-cases, inl, inr,
  arith, ◌==◌,
}
use my_common.Common.Heap.{Heap, store}
use my_common.CommQue.{success, failure, no_wait}
use my_common.ThreadSafeQueue.{
  Node, Store, hand_over, unlink, link, enqueue, dequeue, size, is_empty,
}
use my_common.ThreadSafeQueue.Chain.{Cell, Holds}
use my_common.ThreadSafeQueue.Enqueue.{link-Holds}
use my_common.ThreadSafeQueue.Dequeue.{item, unlink-Holds, unlink-empty}
use my_common.ThreadSafeQueue.Find.{find, find_wildcard-find}
use my_common.ThreadSafeQueue.Remove.Loop.{matching, others, remove_wildcard-Filtered, no_arrays}
use my_common.ThreadSafeQueue.Clear.{clear-Freed}
use my_common.ThreadSafeQueue.Refine.{
  Item, Op, put, get, search_for, remove, count, ask_empty, wipe, Reply, code, got, removed, number,
  answer, freed, first_match, matches, rest_of, FifoStep, put_queued, put_null, put_no_data,
  put_no_memory, get_front, get_nothing, searched, no_copy, took, no_array, counted, asked, wiped,
  on_enqueue, on_dequeue, on_find, on_removal, on_clear, step,
}

first_match-item :
    (p : ℕ → ℕ → Bool) (cs : List Cell)
    → find (λ c. p c.data_ptr c.data_size && true) cs ≡ first_match p (map item cs)
first_match-item p [] = refl
first_match-item p (c ∷ cs) = ground (arith, first_match-item p cs)

find-nothing :
    (p : ℕ → ℕ → Bool) (cs : List Cell) → find (λ c. p c.data_ptr c.data_size && false) cs ≡ none
find-nothing p [] = refl
find-nothing p (c ∷ cs) = ground (arith, find-nothing p cs)

matches-item :
    (p : ℕ → ℕ → Bool) (cs : List Cell) → map item (matching p cs) ≡ matches p (map item cs)
matches-item p [] = refl
matches-item p (c ∷ cs) = ground (arith, matches-item p cs)

rest_of-item :
    (p : ℕ → ℕ → Bool) (cs : List Cell) → map item (others p cs) ≡ rest_of p (map item cs)
rest_of-item p [] = refl
rest_of-item p (c ∷ cs) = ground (arith, rest_of-item p cs)

pointers-item : (cs : List Cell) → map (λ c. c.data_ptr) cs ≡ map (λ x. x.0) (map item cs)
pointers-item [] = refl
pointers-item (c ∷ cs) = ap (λ l. c.data_ptr ∷ l) (pointers-item cs)

-- The queue holds nodes with these items, and is not destroyed.
pub record Represents (s : Store) (xs : List Item) : Type 0 where
  pub cells : List Cell
  pub holds : Holds s cells
  pub items_at : xs ≡ map item cells
  pub live : s.queue.is_destroyed ≡ false

module _ (malloc : Heap Node → Option ℕ) where
  -- The call does a step of the specification.
  abbrev pub Does : Op → Store → List Item → Type 0
  Does o s xs =
      (r : Reply) × (s' : Store) × (ys : List Item) × (step malloc o s ≡ some (r, s'))
      × FifoStep malloc o xs r ys
      × Represents s' ys

  module _ (s : Store) (live : s.queue.is_destroyed ≡ false) where
    dequeue-unlink : dequeue no_wait [] s ≡ hand_over (unlink s)
    unfolding dequeue
    dequeue-unlink = ground arith

    get-Does : (cs : List Cell) → Holds s cs → length cs < 2 ^ 64 → Does get s (map item cs)
    unfolding step
    get-Does [] v room = (
      got none,
      s,
      [],
      ap on_dequeue (dequeue-unlink ∙ ap hand_over (unlink-empty s v.size_at)),
      get_nothing,
      record { cells = []; holds = v; items_at = refl; live = live },
    )
    get-Does (c ∷ cs) v room =
        let (s', e, v', d) = unlink-Holds s c cs v live (omega arith) in
        (
          got (some (item c)),
          s',
          map item cs,
          ap on_dequeue (dequeue-unlink ∙ ap hand_over e),
          get_front,
          record { cells = cs; holds = v'; items_at = refl; live = d ∙ live },
        )

    module _ (cs : List Cell) (v : Holds s cs) where
      same : Represents s (map item cs)
      same = record { cells = cs; holds = v; items_at = refl; live = live }

      enough : length cs < s.queue.size + 1
      enough = omega (arith, v.size_at)

      search-Does : (p : ℕ → ℕ → Bool) (b : Bool) → Does (search_for p b) s (map item cs)
      unfolding step
      search-Does p true = (
        got (first_match p (map item cs)),
        s,
        map item cs,
        ap (on_find s) (
            find_wildcard-find p (λ a. true) (s.queue.size + 1) s cs v enough
            ∙ ap some (first_match-item p cs)),
        searched,
        same,
      )
      search-Does p false = (
        got none,
        s,
        map item cs,
        ap (on_find s) (
            find_wildcard-find p (λ a. false) (s.queue.size + 1) s cs v enough
            ∙ ap some (find-nothing p cs)),
        no_copy,
        same,
      )

      remove-Does :
          (p : ℕ → ℕ → Bool) (b : Bool) → length cs < 2 ^ 64 → Does (remove p b) s (map item cs)
      unfolding step
      remove-Does p true room =
          let (r, e, ec, er, v', d) =
            remove_wildcard-Filtered p (s.queue.size + 1) cs s v enough room in
          (
            removed r.count r.removed,
            r.after,
            map item (others p cs),
            ap on_removal e,
            rw (ec, er, ← length-map (matching p cs) item, matches-item p cs, rest_of-item p cs)
                took,
            record { cells = others p cs; holds = v'; items_at = refl; live = d ∙ live },
          )
      remove-Does p false room = (
        removed 0 [],
        s,
        map item cs,
        ap on_removal (no_arrays p (s.queue.size + 1) cs s v enough),
        no_array,
        same,
      )

      wipe-Does : Does wipe s (map item cs)
      unfolding step
      wipe-Does =
          let (s', e, v', f, d) = clear-Freed (s.queue.size + 1) cs s v enough in
          (
            freed (map (λ c. c.data_ptr) cs),
            s',
            [],
            ap on_clear e,
            rw (pointers-item cs) wiped,
            record { cells = []; holds = v'; items_at = refl; live = d ∙ live },
          )

      count-Does : Does count s (map item cs)
      unfolding step size
      count-Does = (
        number (length cs),
        s,
        map item cs,
        rw (v.size_at) refl,
        rw (← length-map cs item) counted,
        same,
      )

      ask-Does : Does ask_empty s (map item cs)
      unfolding step is_empty
      ask-Does = (
        answer (length cs == 0),
        s,
        map item cs,
        rw (v.size_at) refl,
        rw (← length-map cs item) asked,
        same,
      )

      queued :
          (a d n : ℕ)
          → malloc s.heap ≡ some a
          → n ≢ 0
          → (s' : Store)
          → link a (record s {
            heap = store a (some (record { data_ptr = d; data_size = n; next = none })) s.heap;
          })
            ≡ some s'
          → step malloc (put (some d) n) s ≡ some (code success, s')
      unfolding step enqueue
      queued a d n em en s' el = ground (arith, em, en, el, live)

      refused :
          (d : Option ℕ) (n : ℕ)
          → enqueue malloc d n s ≡ some (failure, [], s)
          → FifoStep malloc (put d n) (map item cs) (code failure) (map item cs)
          → Does (put d n) s (map item cs)
      unfolding step
      refused d n e f = (code failure, s, map item cs, ap on_enqueue e, f, same)

      put-Does :
          ((h : Heap Node) (a : ℕ) → malloc h ≡ some a → h a ≡ none)
          → (d : Option ℕ) (n : ℕ) → length cs + 1 < 2 ^ 64
          → Does (put d n) s (map item cs)
      unfolding enqueue
      put-Does fresh none n room = refused none n refl put_null
      put-Does fresh (some d) zero room = refused (some d) 0 refl put_no_data
      put-Does fresh (some d) (suc n) room = elim (Option-cases (malloc (s.heap))) [
        | inl e ↦ refused (some d) (suc n) (ground (arith, e, live)) (put_no_memory {h = s.heap} e)
        | inr (a, e) ↦
            let c : Cell = record { addr = a; data_ptr = d; data_size = suc n } in
            let (s', el, v', ed) = link-Holds s cs c v (fresh (s.heap) a e) room in
            (
              code success,
              s',
              map item cs ++ ((d, suc n) ∷ []),
              queued a d (suc n) e (omega arith) s' el,
              put_queued (omega arith),
              record {
                cells = cs ++ (c ∷ []);
                holds = v';
                items_at = sym (map-append item cs (c ∷ []));
                live = ed ∙ live;
              },
            )
      ]

  -- Every call does a step of the specification.
  pub step-Does :
      ((h : Heap Node) (a : ℕ) → malloc h ≡ some a → h a ≡ none)
      → (o : Op) (s : Store) (xs : List Item) → Represents s xs
      → length xs + 1 < 2 ^ 64
      → Does o s xs
  step-Does fresh o s xs rep room = subst (Does o s) (sym rep.items_at) (
      by_call o rep.cells rep.holds
        (omega (arith, room, ap length rep.items_at, length-map rep.cells item)))
    where
      by_call :
          (o : Op) (cs : List Cell) → Holds s cs → length cs + 1 < 2 ^ 64 → Does o s (map item cs)
      by_call (put d n) cs v room = put-Does s rep.live cs v fresh d n room
      by_call get cs v room = get-Does s rep.live cs v (omega arith)
      by_call (search_for p b) cs v room = search-Does s rep.live cs v p b
      by_call (remove p b) cs v room = remove-Does s rep.live cs v p b (omega arith)
      by_call count cs v room = count-Does s rep.live cs v
      by_call ask_empty cs v room = ask-Does s rep.live cs v
      by_call wipe cs v room = wipe-Does s rep.live cs v
