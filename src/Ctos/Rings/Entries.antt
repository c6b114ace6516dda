-- ===== src/Ctos/Rings/Entries.antt =====
-- The calls on a circular list of common/ctos.c against a list of its entries.
use my_common.Common.{
  ℕ, ◌≢◌, Bool, true, false, Option, some, List, [], ◌∷◌, ◌++◌, All, All-append, All-right, ◌==◌,
  if◌then◌else◌, ◌≡◌, refl, sym, ap, subst, ◌∙◌, arith,
}
use mathlib.Core.List.{append_assoc}
use my_common.Common.Distinct.{DistinctBy}
use my_common.Common.Heap.{Heap, store, store-at}
use my_common.Ctos.Rings.{ListNode, list_init, list_add, list_add_tail, list_del, list_empty}
use my_common.Ctos.Rings.Turn.{Ring, turn}
use my_common.Ctos.Rings.Calls.{list_add-Ring, list_add_tail-Ring, list_del-Ring}
use my_common.XList.{change}
use my_common.XList.Links.{last}
use my_common.XList.Calls.{last-append}

pub data Call : Type 0 where
  add add_tail del : ℕ → Call

abbrev pub run_call : ℕ → Call → Heap ListNode → Option (Heap ListNode)
run_call head (add n) h = list_add n head h
run_call head (add_tail n) h = list_add_tail n head h
run_call head (del n) h = list_del n h

abbrev pub without : ℕ → List ℕ → List ℕ
without n [] = []
without n (x ∷ xs) = let rest = without n xs in if x == n then xs else x ∷ rest

-- The entries behind the head.
abbrev pub entries_after : Call → List ℕ → List ℕ
entries_after (add n) xs = n ∷ xs
entries_after (add_tail n) xs = xs ++ (n ∷ [])
entries_after (del n) xs = without n xs

abbrev pub Has : ℕ → List ℕ → Type 0
Has n xs = (ks : List ℕ) × (ys : List ℕ) × (xs ≡ ks ++ (n ∷ ys))

abbrev pub IsFree : Heap ListNode → List ℕ → ℕ → Type 0
IsFree h ns n = All (λ m. m ≢ n) ns × (x : ListNode) × (h n ≡ some x)

-- A new entry is in memory and not in the list, and an entry that is deleted is in the list.
abbrev pub IsAllowed : ℕ → Heap ListNode → Call → List ℕ → Type 0
IsAllowed head h (add n) xs = IsFree h (head ∷ xs) n
IsAllowed head h (add_tail n) xs = IsFree h (head ∷ xs) n
IsAllowed head h (del n) xs = Has n xs

abbrev pub is_nil : List ℕ → Bool
is_nil [] = true
is_nil (x ∷ xs) = false

-- What a call leads to.
abbrev pub Leads : ℕ → Call → Heap ListNode → List ℕ → Type 0
Leads head c h xs =
    (h' : Heap ListNode) × (run_call head c h ≡ some h')
    × Ring h' (head ∷ entries_after c xs)
    × (list_empty head h' ≡ some (is_nil (entries_after c xs)))

empty-nil :
    (h : Heap ListNode) (head : ℕ) (xs : List ℕ)
    → Ring h (head ∷ xs)
    → list_empty head h ≡ some (is_nil xs)
unfolding list_empty
empty-nil h head [] (l, d) = ground (arith, l.0)
empty-nil h head (x ∷ xs) (l, d) = ground (arith, l.0, d.0.0)

with_empty :
    (head : ℕ) (c : Call) (h : Heap ListNode) (xs : List ℕ)
    → (h' : Heap ListNode) × (run_call head c h ≡ some h') × Ring h' (head ∷ entries_after c xs)
    → Leads head c h xs
with_empty head c h xs (h', e, r) = (h', e, r, empty-nil h' head (entries_after c xs) r)

without-middle :
    (ks : List ℕ) (n : ℕ) (ys : List ℕ)
    → DistinctBy (λ x. x) (ks ++ (n ∷ ys))
    → without n (ks ++ (n ∷ ys)) ≡ ks ++ ys
without-middle [] n ys d = ground arith
without-middle (k ∷ ks) n ys d =
    let apart : n ≢ k = (All-right (λ y. y ≢ k) ks (n ∷ ys) d.0).0 in
    let other : (k == n) ≡ false = ground (arith, apart) in
    rw (other, without-middle ks n ys d.1) refl

-- The list from behind its head on.
first-turned :
    (head : ℕ) (xs : List ℕ)
    → (n : ℕ) × (ns : List ℕ) × (xs ++ (head ∷ []) ≡ n ∷ ns) × (last (some n) ns ≡ some head)
first-turned head [] = (head, [], refl, refl)
first-turned head (x ∷ xs) = (x, xs ++ (head ∷ []), refl, sym (last-append xs (head ∷ []) (some x)))

add-Leads :
    (head n : ℕ) (h : Heap ListNode) (xs : List ℕ)
    → Ring h (head ∷ xs)
    → IsFree h (head ∷ xs) n
    → Leads head (add n) h xs
add-Leads head n h xs r (out, x, at_n) =
    let (m, ms, e, at_last) = first-turned head xs in
    let turned : Ring h (m ∷ ms) = subst (Ring h) e (turn h (head ∷ []) xs r) in
    let out' : All (λ k. k ≢ n) (m ∷ ms) =
      subst (All (λ k. k ≢ n)) e (All-append (λ k. k ≢ n) xs (head ∷ []) out.1 (out.0, tt)) in
    let (h', run, r') = list_add-Ring h n head m ms x turned at_last at_n out.0 out' in
    let r2 : Ring h' (xs ++ (head ∷ (n ∷ []))) =
      subst (Ring h') (ap (λ l. l ++ (n ∷ [])) (sym e) ∙ append_assoc xs (head ∷ []) (n ∷ [])) r' in
    with_empty head (add n) h xs (h', run, turn h' xs (head ∷ (n ∷ [])) r2)

first-behind :
    (ys : List ℕ) (head : ℕ) (ks : List ℕ) → (n : ℕ) × (ns : List ℕ) × (ys ++ (head ∷ ks) ≡ n ∷ ns)
first-behind [] head ks = (head, ks, refl)
first-behind (y ∷ ys) head ks = (y, ys ++ (head ∷ ks), refl)

del-Leads :
    (head n : ℕ) (h : Heap ListNode) (xs : List ℕ)
    → Ring h (head ∷ xs)
    → Has n xs
    → Leads head (del n) h xs
del-Leads head n h xs r (ks, ys, e) =
    let ring : Ring h ((head ∷ ks) ++ (n ∷ ys)) = subst (λ l. Ring h (head ∷ l)) e r in
    let (m, ms, e') = first-behind ys head ks in
    let turned : Ring h (n ∷ (m ∷ ms)) =
      subst (λ l. Ring h (n ∷ l)) e' (turn h (head ∷ ks) (n ∷ ys) ring) in
    let (h', run, r') = list_del-Ring h n m ms turned in
    let rest : Ring h' (head ∷ (ks ++ ys)) = turn h' ys (head ∷ ks) (subst (Ring h') (sym e') r') in
    let left : ks ++ ys ≡ without n xs = sym (ap (without n) e ∙ without-middle ks n ys ring.1.1) in
    with_empty head (del n) h xs (h', run, subst (λ l. Ring h' (head ∷ l)) left rest)

-- A call of os_list_add, os_list_add_tail or os_list_del on a circular list, with a new entry
-- that is in memory and not in the list, or with one of its entries, uses only entries in memory
-- and leaves a circular list in both directions: behind its head stand the entries with the new
-- one at the front, or at the end, or without the deleted one, and os_list_empty says whether
-- there are any.
pub run_call-Leads :
    (head : ℕ) (c : Call) (h : Heap ListNode) (xs : List ℕ)
    → Ring h (head ∷ xs)
    → IsAllowed head h c xs
    → Leads head c h xs
run_call-Leads head (add n) h xs r a = add-Leads head n h xs r a
run_call-Leads head (add_tail n) h xs r (out, x, at_n) =
    with_empty head (add_tail n) h xs (list_add_tail-Ring h n head xs x r at_n out)
run_call-Leads head (del n) h xs r a = del-Leads head n h xs r a

-- A new list.
pub list_init-Ring :
    (list : ℕ) (h : Heap ListNode) (x : ListNode)
    → h list ≡ some x
    → (h' : Heap ListNode) × (list_init list h ≡ some h') × Ring h' (list ∷ [])
unfolding list_init change
list_init-Ring list h x e = (
  store list (some (record { next = some list; prev = some list })) h,
  ground (arith, e),
  ((store-at list (some (record { next = some list; prev = some list })) h, tt), (tt, tt)),
)
