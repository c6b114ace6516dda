-- ===== src/ThreadSafeQueue/Clear.antt =====
-- `queue_clear` and `queue_destroy` of common/thread_safe_queue.c.
use my_common.Common.{
  ℕ, zero, suc, ◌≡◌, ◌≢◌, ◌<◌, refl, sym, ap, ◌∙◌, true, false, Option, none, some, List, [], ◌∷◌,
  map, length, All, arith, ◌==◌,
}
use my_common.Common.Heap.{Heap, store, store-at, store-off}
use my_common.ThreadSafeQueue.{Node, Store, Notice, broadcast_cond}
use my_common.ThreadSafeQueue.Chain.{Cell, first, Chain, Chain-store, Distinct, Holds}

abbrev pub put_first : ℕ → Option (List ℕ × Heap Node) → Option (List ℕ × Heap Node)
put_first d none = none
put_first d (some (freed, h)) = some (d ∷ freed, h)

-- The loop of `queue_clear` with `destroy_node`: it gives the data pointers that it frees, in order.
unfoldable pub clear_from : ℕ → Option ℕ → Heap Node → Option (List ℕ × Heap Node)
clear_from zero current h = none
clear_from (suc fuel) none h = some ([], h)
clear_from (suc fuel) (some a) h = elim (h a) [
  | none ↦ none
  | some n ↦ put_first n.data_ptr (clear_from fuel n.next (store a none h))
]

-- The queue when all its nodes are freed.
abbrev emptied : Store → List ℕ × Heap Node → List ℕ × Store
emptied s (freed, h) =
    (freed, record { queue = record s.queue { front = none; rear = none; size = 0 }; heap = h })

unfoldable pub clear : ℕ → Store → Option (List ℕ × Store)
unfolding clear_from
clear fuel s = elim (s.queue.size == 0) [
  | true ↦ some ([], s)
  | false ↦ elim (clear_from fuel s.queue.front s.heap) [
    | none ↦ none
    | some r ↦ some (emptied s r)
  ]
]

-- What `queue_destroy` does before it destroys the mutex and frees the queue.
unfoldable pub destroy : ℕ → Store → Option (List ℕ × List Notice × Store)
unfolding clear
destroy fuel s = elim (clear fuel (record s { queue = record s.queue { is_destroyed = true } })) [
  | none ↦ none
  | some (freed, s') ↦ some (freed, broadcast_cond ∷ [], s')
]

-- The nodes are freed, and nothing else is.
pub record Freed (cs : List Cell) (h g : Heap Node) : Type 0 where
  pub gone : All (λ c. g c.addr ≡ none) cs
  pub kept : (a : ℕ) → All (λ c. c.addr ≢ a) cs → g a ≡ h a

clear_from-Freed :
    (fuel : ℕ) (cs : List Cell) (h : Heap Node)
    → Chain h cs none
    → Distinct cs
    → length cs < fuel
    → (g : Heap Node) × (clear_from fuel (first cs none) h ≡ some (map (λ c. c.data_ptr) cs, g))
      × Freed cs h g
unfolding clear_from
clear_from-Freed zero cs h k d l = absurd (omega arith)
clear_from-Freed (suc fuel) [] h k d l = (h, refl, record { gone = tt; kept = λ a out. refl })
clear_from-Freed (suc fuel) (c ∷ cs) h k d l =
    let (g, e, f) =
      clear_from-Freed fuel cs (store c.addr none h) (Chain-store h (c.addr) none cs none d.0 k.1)
        d.1 (omega arith) in
    (
      g,
      ground (arith, k.0, e),
      record {
        gone = (f.kept (c.addr) d.0 ∙ store-at (c.addr) none h, f.gone);
        kept = λ a out. f.kept a out.1 ∙ store-off (c.addr) none h a (λ e'. out.0 (sym e'));
      },
    )

-- With more rounds than nodes queue_clear on a valid queue frees the data pointer of each node
-- once, in order, and exactly the nodes, and leaves a valid empty queue.
pub clear-Freed :
    (fuel : ℕ) (cs : List Cell) (s : Store)
    → Holds s cs
    → length cs < fuel
    → (s' : Store) × (clear fuel s ≡ some (map (λ c. c.data_ptr) cs, s'))
      × Holds s' []
      × Freed cs s.heap s'.heap
      × (s'.queue.is_destroyed ≡ s.queue.is_destroyed)
unfolding clear
clear-Freed fuel [] s v l =
    (s, ground (arith, v.size_at), v, record { gone = tt; kept = λ a out. refl }, refl)
clear-Freed fuel (c ∷ cs) s v l =
    let (g, e, f) = clear_from-Freed fuel (c ∷ cs) (s.heap) v.chain v.distinct l in
    (
      record { queue = record s.queue { front = none; rear = none; size = 0 }; heap = g },
      ground (arith, v.size_at, ap (λ p. clear_from fuel p s.heap) v.front_at, e),
      record { front_at = refl; rear_at = refl; size_at = refl; chain = tt; distinct = tt },
      f,
      refl,
    )
