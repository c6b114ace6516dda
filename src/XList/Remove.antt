-- ===== src/XList/Remove.antt =====
-- The removal of a node from the list of common/xlist.c.
use my_common.Common.{
  ℕ, ◌-◌, ◌≡◌, ◌≢◌, refl, sym, ◌∙◌, Option, none, some, List, [], ◌∷◌, ◌++◌, length-append, All,
  All-left, All-right, arith, false, ◌==◌,
}
use my_common.Common.Distinct.{DistinctBy, DistinctBy-middle, DistinctBy-without}
use my_common.Common.Heap.{Heap, store, store-at}
use my_common.XList.{StdNode, Lists, change, set_next, set_prev, remove_node}
use my_common.XList.Links.{
  first, last, Links, Holds, Links-store, Links-append, Links-split, set_next-NextSet,
  set_prev-PrevSet,
}
use my_common.XList.Calls.{first-append, last-append}

pub Links-frame :
    (h g : Heap StdNode) (before stop : Option ℕ) (ns : List ℕ)
    → All (λ n. g n ≡ h n) ns
    → Links h before ns stop
    → Links g before ns stop
Links-frame h g before stop [] same l = tt
Links-frame h g before stop (n ∷ ns) same l =
    (same.0 ∙ l.0, Links-frame h g (some n) stop ns same.1 l.1)

-- Distinct lists share no element.
pub unshared : (ks ys : List ℕ) → DistinctBy (λ x. x) (ks ++ ys) → All (λ y. All (λ k. k ≢ y) ks) ys
unshared ks [] d = tt
unshared ks (y ∷ ys) d = (
  All-left (λ x. x ≢ y) ks ys (DistinctBy-middle (λ x. x) ks y ys d),
  unshared ks ys (DistinctBy-without (λ x. x) ks y ys d),
)

pub flipped :
    (ks ys : List ℕ) → All (λ y. All (λ k. k ≢ y) ks) ys → All (λ k. All (λ y. y ≢ k) ys) ks
flipped [] ys a = tt
flipped (k ∷ ks) ys a = (heads ys a, flipped ks ys (tails ys a))
  where
    heads : (ys : List ℕ) → All (λ y. All (λ j. j ≢ y) (k ∷ ks)) ys → All (λ y. y ≢ k) ys
    heads [] a = tt
    heads (y ∷ ys) a = ((λ e. a.0.0 (sym e)), heads ys a.1)

    tails :
        (ys : List ℕ) → All (λ y. All (λ j. j ≢ y) (k ∷ ks)) ys → All (λ y. All (λ j. j ≢ y) ks) ys
    tails [] a = tt
    tails (y ∷ ys) a = (a.0.1, tails ys a.1)

pub All-map : (P Q : ℕ → Type 0) (xs : List ℕ) → ((x : ℕ) → P x → Q x) → All P xs → All Q xs
All-map P Q [] f a = tt
All-map P Q (x ∷ xs) f a = (f x a.0, All-map P Q xs f a.1)

first_again : (ks : List ℕ) (h w : Option ℕ) → h ≡ first ks w → h ≡ first ks h
first_again [] h w e = refl
first_again (k ∷ ks) h w e = e

pub last_again : (ys : List ℕ) (t w : Option ℕ) → t ≡ last w ys → t ≡ last t ys
last_again [] t w e = refl
last_again (y ∷ ys) t w e = e

left_distinct : (ks ys : List ℕ) → DistinctBy (λ x. x) (ks ++ ys) → DistinctBy (λ x. x) ks
left_distinct [] ys d = tt
left_distinct (k ∷ ks) ys d = (All-left (λ x. x ≢ k) ks ys d.0, left_distinct ks ys d.1)

pub right_distinct : (ks ys : List ℕ) → DistinctBy (λ x. x) (ks ++ ys) → DistinctBy (λ x. x) ys
right_distinct [] ys d = d
right_distinct (k ∷ ks) ys d = right_distinct ks ys d.1

remove_node-some :
    (n : ℕ) (x y : StdNode) (s s1 s2 : Lists)
    → (s.list.size == 0) ≡ false
    → s.nodes n ≡ some x
    → set_next x.prev x.next s ≡ some s1
    → set_prev x.next x.prev s1 ≡ some s2
    → s2.nodes n ≡ some y
    → remove_node n s
      ≡ some (record {
        list = record s2.list { size = s2.list.size - 1 };
        nodes = store n (some (record { next = none; prev = none })) s2.nodes;
      })
unfolding remove_node change
remove_node-some n x y s s1 s2 ez ex e1 e2 ey = ground (arith, ez, ex, e1, e2, ey)

-- StdListRemove takes a node of a valid list out wherever it stands; the others stay in order in
-- both directions, the list is valid, and the pointers of the node are null.
pub remove_node-Holds :
    (n : ℕ) (s : Lists) (ks ys : List ℕ)
    → Holds s (ks ++ (n ∷ ys))
    → (s' : Lists) × (remove_node n s ≡ some s')
      × Holds s' (ks ++ ys)
      × (s'.nodes n ≡ some (record { next = none; prev = none }))
remove_node-Holds n s ks ys v =
    let d = DistinctBy-without (λ x. x) ks n ys v.distinct in
    let away = DistinctBy-middle (λ x. x) ks n ys v.distinct in
    let (la, lb) = Links-split (s.nodes) none none ks (n ∷ ys) v.links in
    let (s1, e1, w1) =
      set_next-NextSet ks (some n) (first ys none) s la (left_distinct ks ys d)
        (first_again ks (s.list.head) (some n) (v.head_at ∙ sym (first-append ks (n ∷ ys) none))) in
    let (s2, e2, w2) =
      set_prev-PrevSet ys (some n) (last none ks) s1
        (Links-frame (s.nodes) s1.nodes (some n) none ys
          (All-map (λ y. All (λ k. k ≢ y) ks) (λ y. s1.nodes y ≡ s.nodes y) ys w1.kept
            (unshared ks ys d))
          lb.1)
        (right_distinct ks ys d)
        (last_again ys s1.list.tail (some n)
          (w1.tail_at ∙ v.tail_at ∙ sym (last-append ks (n ∷ ys) none))) in
    let at_n =
      w2.kept n (All-right (λ x. x ≢ n) ks ys away)
      ∙ w1.kept n (All-left (λ x. x ≢ n) ks ys away)
      ∙ lb.0 in
    (
      record {
        list = record s2.list { size = s2.list.size - 1 };
        nodes = store n (some (record { next = none; prev = none })) s2.nodes;
      },
      remove_node-some n (record { next = first ys none; prev = last none ks })
          (record { next = first ys none; prev = last none ks }) s s1 s2
          (ground (arith, v.size_at, length-append ks (n ∷ ys))) lb.0 e1 e2 at_n,
      record {
        head_at = w2.head_at ∙ w1.head_at ∙ first-append ks ys none;
        tail_at = w2.tail_at ∙ last-append ks ys none;
        size_at = omega (
          arith,
          w2.size_at,
          w1.size_at,
          v.size_at,
          length-append ks (n ∷ ys),
          length-append ks ys,
        );
        links =
            Links-store s2.nodes n (some (record { next = none; prev = none })) none none (ks ++ ys)
              away
              (Links-append s2.nodes none none ks ys
                (Links-frame s1.nodes s2.nodes none (first ys none) ks
                  (All-map (λ k. All (λ y. y ≢ k) ys) (λ k. s2.nodes k ≡ s1.nodes k) ks w2.kept
                    (flipped ks ys (unshared ks ys d)))
                  w1.links_at)
                w2.links_at);
        distinct = d;
      },
      store-at n (some (record { next = none; prev = none })) s2.nodes,
    )
