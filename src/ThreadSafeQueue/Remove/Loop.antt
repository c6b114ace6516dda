-- ===== src/ThreadSafeQueue/Remove/Loop.antt =====
-- `queue_remove_wildcard` filters the list of the nodes.
use my_common.Common.{
  ℕ, zero, suc, ◌+◌, ◌^◌, ◌≡◌, ◌<◌, refl, sym, ap, ◌∙◌, subst, Bool, true, false, none, some, List,
  [], ◌∷◌, ◌++◌, map, length, length-append, Bool-cases, inl, inr, ◌⊎◌, arith, if◌then◌else◌,
}
use mathlib.Core.List.{append-nil, append_assoc}
use my_common.Common.Heap.{Heap}
use my_common.ThreadSafeQueue.{Node, Store, signal_cond}
use my_common.ThreadSafeQueue.Chain.{Cell, first, last, last-snoc, node, Chain, Chain-right, Holds}
use my_common.ThreadSafeQueue.Dequeue.{item}
use my_common.ThreadSafeQueue.Remove.{
  Prev, at_front, at_next, count_from, remove_at, remove_from, Removal, remove_wildcard,
}
use my_common.ThreadSafeQueue.Remove.Filter.{prev_for, remove_at-Holds}

-- The nodes that match, and those that do not.
abbrev pub matching : (ℕ → ℕ → Bool) → List Cell → List Cell
matching p [] = []
matching p (c ∷ cs) = if p c.data_ptr c.data_size then c ∷ matching p cs else matching p cs

abbrev pub others : (ℕ → ℕ → Bool) → List Cell → List Cell
others p [] = []
others p (c ∷ cs) = if p c.data_ptr c.data_size then others p cs else c ∷ others p cs

module _ (p : ℕ → ℕ → Bool) where
  -- Some node matches, or all stay.
  matching-cases :
      (cs : List Cell)
      → (matching p cs ≡ []) × (others p cs ≡ cs) ⊎ ((k : ℕ) × (length (matching p cs) ≡ suc k))
  matching-cases [] = inl (refl, refl)
  matching-cases (c ∷ cs) = elim (Bool-cases (p (c.data_ptr) (c.data_size))) [
    | inl e ↦ inr (length (matching p cs), rw (e) refl)
    | inr e ↦ elim (matching-cases cs) [
      | inl (em, eo) ↦ inl (rw (e) em, rw (e) (ap (λ l. c ∷ l) eo))
      | inr (k, em) ↦ inr (k, rw (e) em)
    ]
  ]

  count_from-Chain :
      (fuel : ℕ) (h : Heap Node) (cs : List Cell)
      → Chain h cs none
      → length cs < fuel
      → count_from fuel p (first cs none) h ≡ some (length (matching p cs))
  unfolding count_from
  count_from-Chain zero h cs k l = absurd (omega arith)
  count_from-Chain (suc fuel) h [] k l = refl
  count_from-Chain (suc fuel) h (c ∷ cs) k l =
      ground (arith, k.0, count_from-Chain fuel h cs k.1 (omega arith))

  remove_from-match :
      (fuel : ℕ) (prev : Prev) (a : ℕ) (n : Node) (removed : List (ℕ × ℕ)) (s s' : Store)
      → s.heap a ≡ some n
      → p n.data_ptr n.data_size ≡ true
      → remove_at prev a n s ≡ some s'
      → remove_from (suc fuel) p prev (some a) removed s
        ≡ remove_from fuel p prev n.next (removed ++ ((n.data_ptr, n.data_size) ∷ [])) s'
  unfolding remove_from
  remove_from-match fuel prev a n removed s s' en ep er = ground (arith, en, ep, er)

  remove_from-other :
      (fuel : ℕ) (prev : Prev) (a : ℕ) (n : Node) (removed : List (ℕ × ℕ)) (s : Store)
      → s.heap a ≡ some n
      → p n.data_ptr n.data_size ≡ false
      → remove_from (suc fuel) p prev (some a) removed s
        ≡ remove_from fuel p (at_next a) n.next removed s
  unfolding remove_from
  remove_from-other fuel prev a n removed s en ep = ground (arith, en, ep)

  remove_from-end :
      (fuel : ℕ) (prev : Prev) (removed : List (ℕ × ℕ)) (s : Store)
      → remove_from (suc fuel) p prev none removed s ≡ some (removed ++ [], s)
  unfolding remove_from
  remove_from-end fuel prev removed s = rw (append-nil removed) refl

  -- The loop behind the nodes `ks` that stay, at the nodes `ys`.
  Done : ℕ → List Cell → List Cell → List (ℕ × ℕ) → Store → Type 0
  Done fuel ks ys removed s =
      (s' : Store) × (remove_from fuel p (prev_for (last ks)) (first ys none) removed s
        ≡ some (removed ++ map item (matching p ys), s'))
      × Holds s' (ks ++ others p ys)
      × (s'.queue.is_destroyed ≡ s.queue.is_destroyed)

  module _ (fuel : ℕ) (ks : List Cell) (c : Cell) (ys : List Cell) (removed : List (ℕ × ℕ))
      (s : Store) (v : Holds s (ks ++ (c ∷ ys))) where
    at_c : s.heap c.addr ≡ some (node c (first ys none))
    at_c = (Chain-right (s.heap) ks (c ∷ ys) none v.chain).0

    -- The round at a match.
    round_matched :
        p c.data_ptr c.data_size ≡ true
        → length ks + suc (length ys) < 2 ^ 64
        → ((s1 : Store) → Holds s1 (ks ++ ys) → Done fuel ks ys (removed ++ (item c ∷ [])) s1)
        → Done (suc fuel) ks (c ∷ ys) removed s
    unfolding Done
    round_matched e room rest =
        let (s1, er, v1, d1) =
          remove_at-Holds ks c ys s v (omega (arith, length-append ks (c ∷ ys))) in
        let (s', ef, v', d') = rest s1 v1 in
        (
          s',
          rw (e) (
              remove_from-match fuel (prev_for (last ks)) (c.addr) (node c (first ys none)) removed
                s s1 at_c e er
              ∙ ef
              ∙ ap (λ r. some (r, s'))
                  (append_assoc removed (item c ∷ []) (map item (matching p ys)))),
          rw (e) v',
          d' ∙ d1,
        )

    -- The round at another node.
    round_passed :
        p c.data_ptr c.data_size ≡ false
        → Done fuel (ks ++ (c ∷ [])) ys removed s
        → Done (suc fuel) ks (c ∷ ys) removed s
    unfolding Done
    round_passed e (s', ef, v', d') = (
      s',
      rw (e) (
          remove_from-other fuel (prev_for (last ks)) (c.addr) (node c (first ys none)) removed s
            at_c e
          ∙ ap (λ r. remove_from fuel p (prev_for r) (first ys none) removed s)
              (sym (last-snoc ks c))
          ∙ ef),
      rw (e) (subst (Holds s') (append_assoc ks (c ∷ []) (others p ys)) v'),
      d',
    )

  remove_from-Done :
      (fuel : ℕ) (ks ys : List Cell) (removed : List (ℕ × ℕ)) (s : Store)
      → Holds s (ks ++ ys)
      → length ys < fuel
      → length ks + length ys < 2 ^ 64
      → Done fuel ks ys removed s
  unfolding Done
  remove_from-Done zero ks ys removed s v l room = absurd (omega arith)
  remove_from-Done (suc fuel) ks [] removed s v l room =
      (s, remove_from-end fuel (prev_for (last ks)) removed s, v, refl)
  remove_from-Done (suc fuel) ks (c ∷ ys) removed s v l room =
      elim (Bool-cases (p (c.data_ptr) (c.data_size))) [
        | inl e ↦ round_matched fuel ks c ys removed s v e room λ s1 v1.
            remove_from-Done fuel ks ys (removed ++ (item c ∷ [])) s1 v1 (omega arith) (omega arith)
        | inr e ↦ round_passed fuel ks c ys removed s v e (
            remove_from-Done fuel (ks ++ (c ∷ [])) ys removed s
              (subst (Holds s) (sym (append_assoc ks (c ∷ []) ys)) v) (omega arith)
              (omega (arith, length-append ks (c ∷ []))))
      ]

  -- What the call returns when both arrays find memory.
  abbrev pub Filtered : ℕ → List Cell → Store → Type 0
  Filtered fuel cs s =
      (r : Removal) × (remove_wildcard fuel p true s ≡ some r)
      × (r.count ≡ length (matching p cs))
      × (r.removed ≡ map item (matching p cs))
      × Holds r.after (others p cs)
      × (r.after.queue.is_destroyed ≡ s.queue.is_destroyed)

  remove_wildcard-some :
      (fuel k : ℕ) (s s' : Store) (removed : List (ℕ × ℕ))
      → count_from fuel p s.queue.front s.heap ≡ some (suc k)
      → remove_from fuel p at_front s.queue.front [] s ≡ some (removed, s')
      → remove_wildcard fuel p true s
        ≡ some (record { count = suc k; removed = removed; notices = signal_cond ∷ []; after = s' })
  unfolding remove_wildcard
  remove_wildcard-some fuel k s s' removed ec er = ground (arith, ec, er)

  remove_wildcard-none :
      (fuel : ℕ) (s : Store) (b : Bool)
      → count_from fuel p s.queue.front s.heap ≡ some 0
      → remove_wildcard fuel p b s
        ≡ some (record { count = 0; removed = []; notices = []; after = s })
  unfolding remove_wildcard
  remove_wildcard-none fuel s b ec = ground (arith, ec)

  -- With more rounds than nodes and memory for its arrays, queue_remove_wildcard on a valid
  -- queue reads only its nodes, hands the data of the matching nodes over in order, as many as
  -- it counts, and leaves a valid queue of the other nodes in order.
  pub remove_wildcard-Filtered :
      (fuel : ℕ) (cs : List Cell) (s : Store)
      → Holds s cs
      → length cs < fuel
      → length cs < 2 ^ 64
      → Filtered fuel cs s
  unfolding Done
  remove_wildcard-Filtered fuel cs s v l room = elim (matching-cases cs) [
    | inl (em, eo) ↦ (
      record { count = 0; removed = []; notices = []; after = s },
      remove_wildcard-none fuel s true (counted ∙ ap (λ l. some (length l)) em),
      rw (em) refl,
      rw (em) refl,
      rw (eo) v,
      refl,
    )
    | inr (k, em) ↦
        let (s', ef, v', d') = remove_from-Done fuel [] cs [] s v l (omega (arith, room)) in
        (
          record {
            count = suc k;
            removed = map item (matching p cs);
            notices = signal_cond ∷ [];
            after = s';
          },
          remove_wildcard-some fuel k s s' (map item (matching p cs)) (counted ∙ ap some em)
              (ap (λ f. remove_from fuel p at_front f [] s) v.front_at ∙ ef),
          sym em,
          refl,
          v',
          d',
        )
  ]
    where
      counted : count_from fuel p s.queue.front s.heap ≡ some (length (matching p cs))
      counted =
          ap (λ f. count_from fuel p f s.heap) v.front_at
          ∙ count_from-Chain fuel (s.heap) cs v.chain l

  -- Without memory for the arrays the call removes nothing.
  pub no_arrays :
      (fuel : ℕ) (cs : List Cell) (s : Store)
      → Holds s cs
      → length cs < fuel
      → remove_wildcard fuel p false s
        ≡ some (record { count = 0; removed = []; notices = []; after = s })
  unfolding remove_wildcard
  no_arrays fuel cs s v l = ground (
    arith,
    ap (λ f. count_from fuel p f s.heap) v.front_at,
    count_from-Chain fuel (s.heap) cs v.chain l,
  )
