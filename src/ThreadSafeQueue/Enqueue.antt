-- ===== src/ThreadSafeQueue/Enqueue.antt =====
-- `queue_enqueue` of common/thread_safe_queue.c against the list of the nodes.
use my_common.Common.{
  Option-cases, ◌⊎◌, Option, false, ℕ, ◌+◌, ◌^◌, ◌≡◌, ◌≢◌, ◌<◌, refl, sym, ap, subst, ◌∙◌, none,
  some, List, [], ◌∷◌, ◌++◌, length, length-append, All, All-right, inl, inr, arith,
}
use my_common.Common.Distinct.{DistinctBy-snoc, DistinctBy-last}
use my_common.Common.Heap.{Heap, store, store-at, store-off}
use my_common.Common.Words.{add64}
use my_common.CommQue.{success, failure}
use my_common.ThreadSafeQueue.{Node, Store, link, enqueue, signal_cond}
use my_common.ThreadSafeQueue.Chain.{
  Cell, first-append, last-snoc, node, Chain-append, Chain-store, Chain-relink, Chain-right,
  Chain-fresh, Holds, snoc-cases,
}

-- The node behind a queue that is written, but not yet linked.
abbrev written : Store → Cell → Store
written s c = record s { heap = store c.addr (some (node c none)) s.heap }

-- The queue when the node is linked: as the front, or behind the node `d`.
abbrev linked_front : Store → Cell → Store
linked_front s c = record (written s c) {
  queue = record s.queue { front = some c.addr; rear = some c.addr; size = add64 s.queue.size 1 };
}

abbrev linked_behind : Cell → Store → Cell → Store
linked_behind d s c = record {
  queue = record s.queue { rear = some c.addr; size = add64 s.queue.size 1 };
  heap = store d.addr (some (node d (some c.addr))) (written s c).heap;
}

Result : Store → List Cell → Cell → Type 0
Result s cs c =
    (s' : Store) × (link c.addr (written s c) ≡ some s')
    × Holds s' (cs ++ (c ∷ []))
    × (s'.queue.is_destroyed ≡ s.queue.is_destroyed)

link-empty : (s : Store) (c : Cell) → Holds s [] → Result s [] c
unfolding link Result
link-empty s c v = (
  linked_front s c,
  rw (v.rear_at) refl,
  record {
    front_at = refl;
    rear_at = refl;
    size_at = rw (v.size_at) refl;
    chain = (store-at (c.addr) (some (node c none)) (s.heap), tt);
    distinct = (tt, tt);
  },
  refl,
)

link-behind :
    (s : Store) (a r : ℕ) (n : Node)
    → s.queue.rear ≡ some r
    → s.heap r ≡ some n
    → link a s
      ≡ some (record {
        queue = record s.queue { rear = some a; size = add64 s.queue.size 1 };
        heap = store r (some (record n { next = some a })) s.heap;
      })
unfolding link
link-behind s a r n er en = ground (arith, er, en)

module _ (s : Store) (cs : List Cell) (d c : Cell) where
  link-snoc :
      Holds s (cs ++ (d ∷ []))
      → s.heap c.addr ≡ none
      → length cs + 2 < 2 ^ 64
      → Result s (cs ++ (d ∷ [])) c
  unfolding link Result
  link-snoc v free room = (
    linked_behind d s c,
    link-behind (written s c) (c.addr) (d.addr) (node d none) (v.rear_at ∙ last-snoc cs d) at_d,
    record {
      front_at =
          v.front_at
          ∙ first-append cs (d ∷ []) none
          ∙ sym (
              first-append (cs ++ (d ∷ [])) (c ∷ []) none ∙ first-append cs (d ∷ []) (some c.addr));
      rear_at = sym (last-snoc (cs ++ (d ∷ [])) c);
      size_at =
          omega
            (arith, v.size_at, length-append cs (d ∷ []), length-append (cs ++ (d ∷ [])) (c ∷ []));
      chain =
          Chain-append (linked_behind d s c).heap (cs ++ (d ∷ [])) (c ∷ []) none
            (Chain-relink (written s c).heap cs d none (some c.addr)
              (DistinctBy-last (λ x. x.addr) cs d v.distinct)
              (Chain-store (s.heap) (c.addr) (some (node c none)) (cs ++ (d ∷ [])) none out
                v.chain))
            (
              store-off (d.addr) (some (node d (some c.addr))) (written s c).heap (c.addr)
                    (λ e. d_ne (sym e))
                  ∙ store-at (c.addr) (some (node c none)) (s.heap),
              tt,
            );
      distinct = DistinctBy-snoc (λ x. x.addr) (cs ++ (d ∷ [])) c out v.distinct;
    },
    refl,
  )
    where
      out : All (λ x. x.addr ≢ c.addr) (cs ++ (d ∷ []))
      out = Chain-fresh (s.heap) (c.addr) (cs ++ (d ∷ [])) none free v.chain

      d_ne : d.addr ≢ c.addr
      d_ne = (All-right (λ x. x.addr ≢ c.addr) cs (d ∷ []) out).0

      at_d : (written s c).heap d.addr ≡ some (node d none)
      at_d =
          store-off (c.addr) (some (node c none)) (s.heap) (d.addr) d_ne
          ∙ (Chain-right (s.heap) cs (d ∷ []) none v.chain).0

-- A node at an unused address is linked as the last.
pub link-Holds :
    (s : Store) (cs : List Cell) (c : Cell)
    → Holds s cs
    → s.heap c.addr ≡ none
    → length cs + 1 < 2 ^ 64
    → (s' : Store) × (link c.addr (written s c) ≡ some s')
      × Holds s' (cs ++ (c ∷ []))
      × (s'.queue.is_destroyed ≡ s.queue.is_destroyed)
unfolding Result
link-Holds s cs c v free room = elim (snoc-cases cs) [
  | inl e ↦ subst (λ l. Result s l c) (sym e) (link-empty s c (subst (Holds s) e v))
  | inr (ds, d, e) ↦
      subst (λ l. Result s l c) (sym e)
        (link-snoc s ds d c (subst (Holds s) e v) free
          (omega (arith, room, ap length e, length-append ds (d ∷ []))))
]

linked :
    (malloc : Heap Node → Option ℕ) (d n : ℕ) (s : Store) (a : ℕ) (s' : Store)
    → malloc s.heap ≡ some a
    → s.queue.is_destroyed ≡ false
    → n ≢ 0
    → link a (written s (record { addr = a; data_ptr = d; data_size = n })) ≡ some s'
    → enqueue malloc (some d) n s ≡ some (success, signal_cond ∷ [], s')
unfolding enqueue
linked malloc d n s a s' e live en el = ground (arith, e, live, en, el)

-- An enqueue of data with a size on a live queue appends a node, or fails when there is no memory
-- for one.
pub enqueue-cases :
    (malloc : Heap Node → Option ℕ)
    → ((h : Heap Node) (a : ℕ) → malloc h ≡ some a → h a ≡ none)
    → (d n : ℕ) (s : Store) (cs : List Cell) → Holds s cs
    → s.queue.is_destroyed ≡ false
    → n ≢ 0
    → length cs + 1 < 2 ^ 64
    → ((a : ℕ) × (s' : Store) × (enqueue malloc (some d) n s ≡ some (success, signal_cond ∷ [], s'))
        × Holds s' (cs ++ (record { addr = a; data_ptr = d; data_size = n } ∷ []))
        × (s'.queue.is_destroyed ≡ s.queue.is_destroyed))
      ⊎ (enqueue malloc (some d) n s ≡ some (failure, [], s)) × (malloc s.heap ≡ none)
unfolding enqueue
enqueue-cases malloc fresh d n s cs v live en room = elim (Option-cases (malloc (s.heap))) [
  | inl e ↦ inr (ground (arith, e, live), e)
  | inr (a, e) ↦
      let c : Cell = record { addr = a; data_ptr = d; data_size = n } in
      let (s', el, v', ed) = link-Holds s cs c v (fresh (s.heap) a e) room in
      inl (a, s', linked malloc d n s a s' e live en el, v', ed)
]
