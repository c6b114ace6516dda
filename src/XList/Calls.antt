-- ===== src/XList/Calls.antt =====
-- The calls of common/xlist.c on a valid list.
use my_common.Common.{
  ℕ, ◌+◌, ◌≡◌, ◌≢◌, refl, sym, ap, ◌∙◌, Option, none, some, List, [], ◌∷◌, ◌++◌, length-append, All,
  arith,
}
use my_common.Common.Distinct.{DistinctBy-snoc}
use my_common.Common.Heap.{store, store-at}
use my_common.XList.{StdNode, Lists, change, set_next, set_prev, push_back, push_front}
use my_common.XList.Links.{
  first, last, Holds, Links-store, Links-append, set_next-NextSet, set_prev-PrevSet,
}

first-same : (ns : List ℕ) → first ns none ≡ first ns (first ns none)
first-same [] = refl
first-same (n ∷ ns) = refl

last-same : (ns : List ℕ) → last none ns ≡ last (last none ns) ns
last-same [] = refl
last-same (n ∷ ns) = refl

pub first-append : (ns ms : List ℕ) (v : Option ℕ) → first ns (first ms v) ≡ first (ns ++ ms) v
first-append [] ms v = refl
first-append (n ∷ ns) ms v = refl

pub last-append : (ns ms : List ℕ) (v : Option ℕ) → last (last v ns) ms ≡ last v (ns ++ ms)
last-append [] ms v = refl
last-append (n ∷ ns) ms v = last-append ns ms (some n)

-- A node of the caller that is in memory.
module _ (n : ℕ) (x : StdNode) (s : Lists) (ns : List ℕ) (v : Holds s ns)
    (at_n : s.nodes n ≡ some x) (out : All (λ m. m ≢ n) ns) where
  abbrev back_ready : Lists
  back_ready = record s {
    nodes = store n (some (record { next = none; prev = s.list.tail })) s.nodes;
  }

  push_back-some :
      (s1 : Lists)
      → set_next s.list.tail (some n) back_ready ≡ some s1
      → push_back n s
        ≡ some (record s1 { list = record s1.list { tail = some n; size = s1.list.size + 1 } })
  unfolding push_back change
  push_back-some s1 e = ground (arith, at_n, e)

  push_back-Holds : (s' : Lists) × (push_back n s ≡ some s') × Holds s' (ns ++ (n ∷ []))
  push_back-Holds =
      let (s1, e, w) =
        set_next-NextSet ns none (some n) back_ready
          (Links-store (s.nodes) n (some (record { next = none; prev = s.list.tail })) none none ns
            out v.links)
          v.distinct (v.head_at ∙ first-same ns ∙ ap (first ns) (sym v.head_at)) in
      (
        record s1 { list = record s1.list { tail = some n; size = s1.list.size + 1 } },
        push_back-some s1 (ap (λ t. set_next t (some n) back_ready) v.tail_at ∙ e),
        record {
          head_at = w.head_at ∙ first-append ns (n ∷ []) none;
          tail_at = last-append ns (n ∷ []) none;
          size_at = omega (arith, w.size_at, v.size_at, length-append ns (n ∷ []));
          links = Links-append s1.nodes none none ns (n ∷ []) w.links_at (
            w.kept n out
                ∙ store-at n (some (record { next = none; prev = s.list.tail })) (s.nodes)
                ∙ ap (λ t. some (record { next = none; prev = t })) v.tail_at,
            tt,
          );
          distinct = DistinctBy-snoc (λ y. y) ns n out v.distinct;
        },
      )

  abbrev front_ready : Lists
  front_ready = record s {
    nodes = store n (some (record { next = s.list.head; prev = none })) s.nodes;
  }

  push_front-some :
      (s1 : Lists)
      → set_prev s.list.head (some n) front_ready ≡ some s1
      → push_front n s
        ≡ some (record s1 { list = record s1.list { head = some n; size = s1.list.size + 1 } })
  unfolding push_front change
  push_front-some s1 e = ground (arith, at_n, e)

  push_front-Holds : (s' : Lists) × (push_front n s ≡ some s') × Holds s' (n ∷ ns)
  push_front-Holds =
      let (s1, e, w) =
        set_prev-PrevSet ns none (some n) front_ready
          (Links-store (s.nodes) n (some (record { next = s.list.head; prev = none })) none none ns
            out v.links)
          v.distinct (v.tail_at ∙ last-same ns ∙ ap (λ t. last t ns) (sym v.tail_at)) in
      (
        record s1 { list = record s1.list { head = some n; size = s1.list.size + 1 } },
        push_front-some s1 (ap (λ t. set_prev t (some n) front_ready) v.head_at ∙ e),
        record {
          head_at = refl;
          tail_at = w.tail_at;
          size_at = omega (arith, w.size_at, v.size_at);
          links = (
            w.kept n out
                ∙ store-at n (some (record { next = s.list.head; prev = none })) (s.nodes)
                ∙ ap (λ t. some (record { next = t; prev = none })) v.head_at,
            w.links_at,
          );
          distinct = (out, v.distinct);
        },
      )

  -- On a valid list, a node in memory that the list does not have becomes the last by
  -- StdListPushBack and the first by StdListPushFront, and the list is valid.
  pub push-Holds :
      ((s' : Lists) × (push_back n s ≡ some s') × Holds s' (ns ++ (n ∷ [])))
      × ((s' : Lists) × (push_front n s ≡ some s') × Holds s' (n ∷ ns))
  push-Holds = (push_back-Holds, push_front-Holds)
