-- ===== src/ThreadSafeQueue/Find.antt =====
-- `queue_find_wildcard` of common/thread_safe_queue.c against the list of the nodes.
use my_common.Common.{
  ℕ, zero, suc, ◌≡◌, ◌<◌, refl, ap, ◌∙◌, Bool, ◌&&◌, Option, none, some, List, [], ◌∷◌, length,
  arith, if◌then◌else◌,
}
use my_common.Common.Heap.{Heap}
use my_common.ThreadSafeQueue.{Node, Store, find_from, find_wildcard}
use my_common.ThreadSafeQueue.Chain.{Cell, first, Chain, Holds}
use my_common.ThreadSafeQueue.Dequeue.{item}

-- The first node that matches and whose copy finds memory.
abbrev pub find : (Cell → Bool) → List Cell → Option (ℕ × ℕ)
find p [] = none
find p (c ∷ cs) = let rest = find p cs in if p c then some (item c) else rest

module _ (match_func : ℕ → ℕ → Bool) (has_room : ℕ → Bool) where
  find_from-Chain :
      (fuel : ℕ) (h : Heap Node) (cs : List Cell)
      → Chain h cs none
      → length cs < fuel
      → find_from fuel match_func has_room (first cs none) h
        ≡ some (find (λ c. match_func c.data_ptr c.data_size && has_room c.addr) cs)
  unfolding find_from
  find_from-Chain zero h cs k l = absurd (omega arith)
  find_from-Chain (suc fuel) h [] k l = refl
  find_from-Chain (suc fuel) h (c ∷ cs) k l =
      ground (arith, k.0, find_from-Chain fuel h cs k.1 (omega arith))

  -- With more rounds than nodes queue_find_wildcard on a valid queue reads only its nodes and
  -- gives the copy of the first node that matches and for whose copy there is memory, or null
  -- when there is none.
  pub find_wildcard-find :
      (fuel : ℕ) (s : Store) (cs : List Cell)
      → Holds s cs
      → length cs < fuel
      → find_wildcard fuel match_func has_room s
        ≡ some (find (λ c. match_func c.data_ptr c.data_size && has_room c.addr) cs)
  unfolding find_wildcard
  find_wildcard-find fuel s cs v l =
      ap (λ p. find_from fuel match_func has_room p s.heap) v.front_at
      ∙ find_from-Chain fuel (s.heap) cs v.chain l
