-- ===== src/XList/Insert.antt =====
-- The insertion behind a node of the list of common/xlist.c.
use my_common.Common.{
  ℕ, ◌+◌, ◌≡◌, ◌≢◌, sym, ◌∙◌, subst, none, some, List, [], ◌∷◌, ◌++◌, length-append, All,
  All-append, All-left, All-right, arith,
}
use mathlib.Core.List.{append_assoc}
use my_common.Common.Distinct.{DistinctBy, DistinctBy-middle, DistinctBy-without}
use my_common.Common.Heap.{Heap, store, store-at, store-off}
use my_common.XList.{StdNode, Lists, change, set_prev, insert_after}
use my_common.XList.Links.{
  first, last, Links, Holds, Links-store, Links-append, Links-split, set_prev-PrevSet,
}
use my_common.XList.Calls.{first-append, last-append}
use my_common.XList.Remove.{Links-frame, unshared, flipped, All-map, last_again, right_distinct}

inserted-DistinctBy :
    (ks : List ℕ) (n : ℕ) (ys : List ℕ)
    → All (λ x. x ≢ n) (ks ++ ys)
    → DistinctBy (λ x. x) (ks ++ ys)
    → DistinctBy (λ x. x) (ks ++ (n ∷ ys))
inserted-DistinctBy [] n ys out d = (out, d)
inserted-DistinctBy (k ∷ ks) n ys out d = (
  All-append (λ x. x ≢ k) ks (n ∷ ys) (All-left (λ x. x ≢ k) ks ys d.0)
      (λ e. out.0 (sym e), All-right (λ x. x ≢ k) ks ys d.0),
  inserted-DistinctBy ks n ys out.1 d.1,
)

insert_after-some :
    (p n : ℕ) (x before after : StdNode) (s s1 : Lists)
    → s.nodes p ≡ some before
    → s.nodes n ≡ some x
    → set_prev before.next
        (some n)
        (record s { nodes = store n (some (record { next = before.next; prev = some p })) s.nodes })
      ≡ some s1
    → s1.nodes p ≡ some after
    → insert_after p n s
      ≡ some (record {
        list = record s1.list { size = s1.list.size + 1 };
        nodes = store p (some (record after { next = some n })) s1.nodes;
      })
unfolding insert_after change
insert_after-some p n x before after s s1 ep en e1 ea = ground (arith, ep, en, e1, ea)

-- The links once the node before the new one points to it.
inserted-Links :
    (p n : ℕ) (h h1 : Heap StdNode) (ks ys : List ℕ)
    → p ≢ n
    → All (λ m. m ≢ p) ks
    → All (λ m. m ≢ p) ys
    → Links h none ks (some p)
    → All (λ k. h1 k ≡ h k) ks
    → h1 n ≡ some (record { next = first ys none; prev = some p })
    → Links h1 (some n) ys none
    → Links
        (store p (some (record { next = some n; prev = last none ks })) h1)
        none
        ((ks ++ (p ∷ [])) ++ (n ∷ ys))
        none
inserted-Links p n h h1 ks ys apart awayk awayy before same at_n behind =
    let linked : StdNode = record { next = some n; prev = last none ks } in
    let h2 = store p (some linked) h1 in
    subst (λ l. Links h2 none l none) (sym (append_assoc ks (p ∷ []) (n ∷ ys)))
      (Links-append h2 none none ks (p ∷ (n ∷ ys))
        (Links-store h1 p (some linked) none (some p) ks awayk
          (Links-frame h h1 none (some p) ks same before))
        (
          store-at p (some linked) h1,
          (
            store-off p (some linked) h1 n (λ e. apart (sym e)) ∙ at_n,
            Links-store h1 p (some linked) (some n) none ys awayy behind,
          ),
        ))

-- On a valid list, StdListInsertAfter puts a node in memory that the list does not have right
-- behind the given node of the list, wherever that stands, and the list is valid.
insert_after-Holds :
    (p n : ℕ) (x : StdNode) (s : Lists) (ks ys : List ℕ)
    → Holds s (ks ++ (p ∷ ys))
    → s.nodes n ≡ some x
    → All (λ m. m ≢ n) (ks ++ (p ∷ ys))
    → (s' : Lists) × (insert_after p n s ≡ some s') × Holds s' ((ks ++ (p ∷ [])) ++ (n ∷ ys))
insert_after-Holds p n x s ks ys v at_n out =
    let new : StdNode = record { next = first ys none; prev = some p } in
    let before : StdNode = record { next = first ys none; prev = last none ks } in
    let linked : StdNode = record { next = some n; prev = last none ks } in
    let d = DistinctBy-without (λ z. z) ks p ys v.distinct in
    let away = DistinctBy-middle (λ z. z) ks p ys v.distinct in
    let outk = All-left (λ m. m ≢ n) ks (p ∷ ys) out in
    let outy = All-right (λ m. m ≢ n) ks (p ∷ ys) out in
    let awayk = All-left (λ z. z ≢ p) ks ys away in
    let awayy = All-right (λ z. z ≢ p) ks ys away in
    let (la, lb) = Links-split (s.nodes) none none ks (p ∷ ys) v.links in
    let s0 : Lists = record s { nodes = store n (some new) s.nodes } in
    let (s1, e1, w) =
      set_prev-PrevSet ys (some p) (some n) s0
        (Links-store (s.nodes) n (some new) (some p) none ys outy.1 lb.1) (right_distinct ks ys d)
        (last_again ys (s.list.tail) (some p) (v.tail_at ∙ sym (last-append ks (p ∷ ys) none))) in
    let at_p = w.kept p awayy ∙ store-off n (some new) (s.nodes) p outy.0 ∙ lb.0 in
    (
      record {
        list = record s1.list { size = s1.list.size + 1 };
        nodes = store p (some linked) s1.nodes;
      },
      insert_after-some p n x before before s s1 lb.0 at_n e1 at_p,
      record {
        head_at =
            w.head_at
            ∙ v.head_at
            ∙ sym (first-append ks (p ∷ ys) none)
            ∙ first-append ks (p ∷ []) (some n)
            ∙ first-append (ks ++ (p ∷ [])) (n ∷ ys) none;
        tail_at = w.tail_at ∙ last-append (ks ++ (p ∷ [])) (n ∷ ys) none;
        size_at = omega (
          arith,
          w.size_at,
          v.size_at,
          length-append ks (p ∷ ys),
          length-append (ks ++ (p ∷ [])) (n ∷ ys),
          length-append ks (p ∷ []),
        );
        links =
            inserted-Links p n s0.nodes s1.nodes ks ys outy.0 awayk awayy
              (Links-store (s.nodes) n (some new) none (some p) ks outk la)
              (All-map (λ k. All (λ y. y ≢ k) ys) (λ k. s1.nodes k ≡ s0.nodes k) ks w.kept
                (flipped ks ys (unshared ks ys d)))
              (w.kept n outy.1 ∙ store-at n (some new) (s.nodes)) w.links_at;
        distinct =
            inserted-DistinctBy (ks ++ (p ∷ [])) n ys
              (subst (All (λ m. m ≢ n)) (sym (append_assoc ks (p ∷ []) ys)) out)
              (subst (DistinctBy (λ z. z)) (sym (append_assoc ks (p ∷ []) ys)) v.distinct);
      },
    )
