-- ===== src/Ctos/Rings/Calls.antt =====
-- What the calls on a circular list of common/ctos.c do to its entries.
use my_common.Common.{
  ℕ, ◌≢◌, Option, none, some, List, [], ◌∷◌, ◌++◌, All, ◌≡◌, sym, ap, subst, ◌∙◌, arith,
}
use my_common.Common.Distinct.{DistinctBy, DistinctBy-snoc}
use my_common.Common.Heap.{Heap, store, store-at, store-off}
use my_common.Ctos.Rings.{ListNode, list_add, list_add_tail, list_del}
use my_common.Ctos.Rings.Turn.{Ring, first-relinked}
use my_common.XList.Links.{first, last, Links, Links-store, Links-append, last-relinked}
use my_common.XList.Calls.{last-append}

-- A new node between the last and the first of some nodes.
joined-Ring :
    (h : Heap ListNode) (new n : ℕ) (ns : List ℕ)
    → All (λ m. m ≢ new) (n ∷ ns)
    → DistinctBy (λ m. m) (n ∷ ns)
    → h new ≡ some (record { next = some n; prev = last (some n) ns })
    → Links h (some new) (n ∷ ns) (some new)
    → Ring h ((n ∷ ns) ++ (new ∷ []))
joined-Ring h new n ns out d node l = (
  subst (λ v. Links h v ((n ∷ ns) ++ (new ∷ [])) (some n)) (last-append (n ∷ ns) (new ∷ []) none)
      (Links-append h (some new) (some n) (n ∷ ns) (new ∷ []) l (node, tt)),
  DistinctBy-snoc (λ m. m) (n ∷ ns) new out d,
)

pub list_add_tail-Ring :
    (h : Heap ListNode) (new head : ℕ) (xs : List ℕ) (x : ListNode)
    → Ring h (head ∷ xs)
    → h new ≡ some x
    → All (λ m. m ≢ new) (head ∷ xs)
    → (h' : Heap ListNode) × (list_add_tail new head h ≡ some h')
      × Ring h' ((head ∷ xs) ++ (new ∷ []))
unfolding list_add_tail
list_add_tail-Ring h new head xs x (l, d) at_new out =
    let h1 = store new (some (record { next = some head; prev = last (some head) xs })) h in
    let l1 =
      Links-store h new (some (record { next = some head; prev = last (some head) xs }))
        (last (some head) xs) (some head) (head ∷ xs) out l in
    let (z, y, ez, ey, l2, kept) =
      last-relinked h1 (last (some head) xs) (some head) (some new) head xs l1 d in
    let h2 = store z (some (record y { next = some new })) h1 in
    let h3 = store head (some (record { next = first xs (some new); prev = some new })) h2 in
    let node : h3 new ≡ some (record { next = some head; prev = last (some head) xs }) =
      store-off head (some (record { next = first xs (some new); prev = some new })) h2 new
        (λ e. out.0 (sym e))
      ∙ store-off z (some (record y { next = some new })) h1 new (λ e. kept new out (sym e))
      ∙ store-at new (some (record { next = some head; prev = last (some head) xs })) h in
    (
      h3,
      ground (arith, l.0, l1.0, at_new, ez, ey, l2.0),
      joined-Ring h3 new head xs out d node
          (first-relinked h2 (last (some head) xs) (some new) (some new) head xs l2 d),
    )

-- The last of some nodes points to what is behind them.
last-next :
    (h : Heap ListNode) (before stop : Option ℕ) (n : ℕ) (ns : List ℕ) (z : ℕ)
    → Links h before (n ∷ ns) stop
    → last (some n) ns ≡ some z
    → (p : Option ℕ) × (h z ≡ some (record { next = stop; prev = p }))
last-next h before stop n [] z l e = let same : n ≡ z = cc in (before, ap h (sym same) ∙ l.0)
last-next h before stop n (m ∷ ns) z l e = last-next h (some n) stop m ns z l.1 e

pub list_add-Ring :
    (h : Heap ListNode) (new head n : ℕ) (ns : List ℕ) (x : ListNode)
    → Ring h (n ∷ ns)
    → last (some n) ns ≡ some head
    → h new ≡ some x
    → head ≢ new
    → All (λ m. m ≢ new) (n ∷ ns)
    → (h' : Heap ListNode) × (list_add new head h ≡ some h') × Ring h' ((n ∷ ns) ++ (new ∷ []))
unfolding list_add
list_add-Ring h new head n ns x (l, d) at_last at_new apart out =
    let (p, at_head) = last-next h (last (some n) ns) (some n) n ns head l at_last in
    let added : ListNode = record { next = some n; prev = some head } in
    let h1 = store new (some added) h in
    let l1 = Links-store h new (some added) (last (some n) ns) (some n) (n ∷ ns) out l in
    let head1 : h1 head ≡ some (record { next = some n; prev = p }) =
      store-off new (some added) h head apart ∙ at_head in
    let second : ListNode = record { next = first ns (some n); prev = some new } in
    let h2 = store n (some second) h1 in
    let l2 = first-relinked h1 (last (some n) ns) (some n) (some new) n ns l1 d in
    let (z, y, ez, ey, l3, kept) = last-relinked h2 (some new) (some n) (some new) n ns l2 d in
    let same : z ≡ head = cc in
    let h3 = store z (some (record y { next = some new })) h2 in
    let node : h3 new ≡ some (record { next = some n; prev = last (some n) ns }) =
      store-off z (some (record y { next = some new })) h2 new (λ e. kept new out (sym e))
      ∙ store-off n (some second) h1 new (λ e. out.0 (sym e))
      ∙ store-at new (some added) h
      ∙ ap (λ v. some (record { next = some n; prev = v })) (sym at_last) in
    (
      h3,
      ground (arith, at_head, at_new, head1, l1.0, ey, same),
      joined-Ring h3 new n ns out d node l3,
    )

-- The deletion of the first of some entries, of which another one is the list's head.
pub list_del-Ring :
    (h : Heap ListNode) (e n : ℕ) (ns : List ℕ)
    → Ring h (e ∷ (n ∷ ns))
    → (h' : Heap ListNode) × (list_del e h ≡ some h') × Ring h' (n ∷ ns)
unfolding list_del
list_del-Ring h e n ns (l, d) =
    let before = last (some n) ns in
    let h1 = store n (some (record { next = first ns (some e); prev = before })) h in
    let l1 = first-relinked h (some e) (some e) before n ns l.1 d.1 in
    let (z, y, ez, ey, l2, kept) = last-relinked h1 before (some e) (some n) n ns l1 d.1 in
    let h2 = store z (some (record y { next = some n })) h1 in
    let h3 = store e (some (record { next = none; prev = none })) h2 in
    let e1 : h1 e ≡ some (record { next = some n; prev = before }) =
      store-off n (some (record { next = first ns (some e); prev = before })) h e
        (λ q. d.0.0 (sym q))
      ∙ l.0 in
    let e2 : h2 e ≡ some (record { next = some n; prev = before }) =
      store-off z (some (record y { next = some n })) h1 e (λ q. kept e d.0 (sym q)) ∙ e1 in
    (
      h3,
      ground (arith, l.0, l.1.0, e1, ez, ey, e2),
      (
        Links-store h2 e (some (record { next = none; prev = none })) before (some n) (n ∷ ns) d.0
            l2,
        d.1,
      ),
    )
