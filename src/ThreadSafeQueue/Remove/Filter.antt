-- ===== src/ThreadSafeQueue/Remove/Filter.antt =====
-- The second loop of `queue_remove_wildcard` keeps the list of the nodes.
use my_common.Common.{
  ℕ, ◌^◌, ◌≡◌, ◌≢◌, ◌<◌, refl, sym, ap, ◌∙◌, subst, false, Option, none, some, List, [], ◌∷◌, ◌++◌,
  length, length-append, All, All-left, All-right, inl, inr, arith, if◌then◌else◌,
}
use mathlib.Core.List.{append-nil, append_assoc}
use my_common.Common.Distinct.{DistinctBy-middle, DistinctBy-without}
use my_common.Common.Heap.{store}
use my_common.Common.Words.{sub64}
use my_common.ThreadSafeQueue.{Node, Store}
use my_common.ThreadSafeQueue.Chain.{
  Cell, first, last, last-snoc, node, Chain, Chain-append, Chain-left, Chain-right, Chain-store,
  Chain-relink, Distinct, Holds, snoc-cases,
}
use my_common.ThreadSafeQueue.Remove.{
  Prev, at_front, at_next, set_prev, prev_node, is_at, remove_at,
}

abbrev pub prev_for : Option ℕ → Prev
prev_for none = at_front
prev_for (some a) = at_next a

last-append : (ks : List Cell) (d : Cell) (ys : List Cell) → last (ks ++ (d ∷ ys)) ≡ last (d ∷ ys)
last-append [] d ys = refl
last-append (k ∷ []) d ys = refl
last-append (k ∷ (l ∷ ks)) d ys = last-append (l ∷ ks) d ys

is_at-last : (cs : List Cell) (a : ℕ) → All (λ x. x.addr ≢ a) cs → is_at (last cs) a ≡ false
is_at-last [] a h = refl
is_at-last (c ∷ []) a h = ground (arith, h.0)
is_at-last (c ∷ (d ∷ cs)) a h = is_at-last (d ∷ cs) a h.1

prev_node-prev_for : (r : Option ℕ) → prev_node (prev_for r) ≡ r
prev_node-prev_for none = refl
prev_node-prev_for (some a) = refl

-- The rear moves to the node before the removed one exactly when that was the last.
rear-without :
    (ks : List Cell) (c : Cell) (ys : List Cell)
    → Distinct (ks ++ (c ∷ ys))
    → (if is_at (last (ks ++ (c ∷ ys))) c.addr
        then prev_node (prev_for (last ks))
        else last (ks ++ (c ∷ ys)))
      ≡ last (ks ++ ys)
rear-without ks c [] h =
    rw (last-snoc ks c, append-nil ks) (ground (arith, prev_node-prev_for (last ks)))
rear-without ks c (d ∷ ys) h =
    rw
      (
        last-append ks c (d ∷ ys),
        last-append ks d ys,
        is_at-last (d ∷ ys) (c.addr) (
            All-right (λ x. x.addr ≢ c.addr) ks (d ∷ ys)
              (DistinctBy-middle (λ x. x.addr) ks c (d ∷ ys) h)),
      )
      refl

-- The queue behind `*prev = next`.
PrevSet : List Cell → Cell → List Cell → Store → Type 0
PrevSet ks c ys s =
    (s1 : Store) × (set_prev (prev_for (last ks)) (first ys none) s ≡ some s1)
    × (s1.queue.front ≡ first (ks ++ ys) none)
    × (s1.queue.rear ≡ s.queue.rear)
    × (s1.queue.size ≡ s.queue.size)
    × (s1.queue.is_destroyed ≡ s.queue.is_destroyed)
    × Chain s1.heap (ks ++ ys) none

set_prev-at_next :
    (p : ℕ) (n : Node) (next : Option ℕ) (s : Store)
    → s.heap p ≡ some n
    → set_prev (at_next p) next s
      ≡ some (record s { heap = store p (some (record n { next = next })) s.heap })
unfolding set_prev
set_prev-at_next p n next s e = ground (arith, e)

prev-front : (c : Cell) (ys : List Cell) (s : Store) → Holds s (c ∷ ys) → PrevSet [] c ys s
unfolding PrevSet set_prev
prev-front c ys s v = (
  record s { queue = record s.queue { front = first ys none } },
  refl,
  refl,
  refl,
  refl,
  refl,
  v.chain.1,
)

first-snoc :
    (ds : List Cell) (d : Cell) (xs ys : List Cell)
    → first ((ds ++ (d ∷ [])) ++ xs) none ≡ first ((ds ++ (d ∷ [])) ++ ys) none
first-snoc [] d xs ys = refl
first-snoc (e ∷ ds) d xs ys = refl

prev-node :
    (ds : List Cell) (d c : Cell) (ys : List Cell) (s : Store)
    → Holds s ((ds ++ (d ∷ [])) ++ (c ∷ ys))
    → PrevSet (ds ++ (d ∷ [])) c ys s
unfolding PrevSet
prev-node ds d c ys s v = (
  record s { heap = store d.addr (some (node d (first ys none))) s.heap },
  ap (λ r. set_prev (prev_for r) (first ys none) s) (last-snoc ds d)
      ∙ set_prev-at_next (d.addr) (node d (some c.addr)) (first ys none) s
          (Chain-right (s.heap) ds (d ∷ []) (some c.addr) kept).0,
  v.front_at ∙ first-snoc ds d (c ∷ ys) ys,
  refl,
  refl,
  refl,
  Chain-append (store d.addr (some (node d (first ys none))) s.heap) (ds ++ (d ∷ [])) ys none
      (Chain-relink (s.heap) ds d (some c.addr) (first ys none)
        (All-left (λ x. x.addr ≢ d.addr) ds (c ∷ ys) apart) kept)
      (Chain-store (s.heap) (d.addr) (some (node d (first ys none))) ys none
        (All-right (λ x. x.addr ≢ d.addr) ds (c ∷ ys) apart).1
        (Chain-right (s.heap) (ds ++ (d ∷ [])) (c ∷ ys) none v.chain).1),
)
  where
    kept : Chain s.heap (ds ++ (d ∷ [])) (some c.addr)
    kept = Chain-left (s.heap) (ds ++ (d ∷ [])) (c ∷ ys) none v.chain

    apart : All (λ x. x.addr ≢ d.addr) (ds ++ (c ∷ ys))
    apart =
        DistinctBy-middle (λ x. x.addr) ds d (c ∷ ys)
          (subst Distinct (append_assoc ds (d ∷ []) (c ∷ ys)) v.distinct)

prev-PrevSet :
    (ks : List Cell) (c : Cell) (ys : List Cell) (s : Store)
    → Holds s (ks ++ (c ∷ ys))
    → PrevSet ks c ys s
prev-PrevSet ks c ys s v = elim (snoc-cases ks) [
  | inl e ↦
      subst (λ l. PrevSet l c ys s) (sym e)
        (prev-front c ys s (subst (λ l. Holds s (l ++ (c ∷ ys))) e v))
  | inr (ds, d, e) ↦
      subst (λ l. PrevSet l c ys s) (sym e)
        (prev-node ds d c ys s (subst (λ l. Holds s (l ++ (c ∷ ys))) e v))
]

remove_at-some :
    (prev : Prev) (a : ℕ) (n : Node) (s s1 : Store)
    → set_prev prev n.next s ≡ some s1
    → remove_at prev a n s
      ≡ some (record {
        queue = record s1.queue {
          rear = if is_at s1.queue.rear a then prev_node prev else s1.queue.rear;
          size = sub64 s1.queue.size 1;
        };
        heap = store a none s1.heap;
      })
unfolding remove_at
remove_at-some prev a n s s1 e = ground (arith, e)

-- The node `c` is unlinked and freed; the others stay.
pub remove_at-Holds :
    (ks : List Cell) (c : Cell) (ys : List Cell) (s : Store)
    → Holds s (ks ++ (c ∷ ys))
    → length (ks ++ (c ∷ ys)) < 2 ^ 64
    → (s' : Store) × (remove_at (prev_for (last ks)) c.addr (node c (first ys none)) s ≡ some s')
      × Holds s' (ks ++ ys)
      × (s'.queue.is_destroyed ≡ s.queue.is_destroyed)
unfolding PrevSet
remove_at-Holds ks c ys s v room =
    let (s1, eq, ef, er, es, ed, k) = prev-PrevSet ks c ys s v in
    (
      record {
        queue = record s1.queue {
          rear =
              if is_at s1.queue.rear c.addr then prev_node (prev_for (last ks)) else s1.queue.rear;
          size = sub64 s1.queue.size 1;
        };
        heap = store c.addr none s1.heap;
      },
      remove_at-some (prev_for (last ks)) (c.addr) (node c (first ys none)) s s1 eq,
      record {
        front_at = ef;
        rear_at = rw (er, v.rear_at) (rear-without ks c ys v.distinct);
        size_at =
            omega (arith, es, v.size_at, room, length-append ks (c ∷ ys), length-append ks ys);
        chain =
            Chain-store s1.heap (c.addr) none (ks ++ ys) none
              (DistinctBy-middle (λ x. x.addr) ks c ys v.distinct) k;
        distinct = DistinctBy-without (λ x. x.addr) ks c ys v.distinct;
      },
      ed,
    )
