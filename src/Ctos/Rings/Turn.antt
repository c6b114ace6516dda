-- ===== src/Ctos/Rings/Turn.antt =====
-- The entries of a circular list of common/ctos.c in memory, from any of them on.
use my_common.Common.{ℕ, Option, none, some, List, [], ◌∷◌, ◌++◌, ◌≡◌, sym, ap, subst, ◌∙◌}
use mathlib.Core.List.{append_assoc, append-nil}
use my_common.Common.Distinct.{DistinctBy, DistinctBy-snoc}
use my_common.Common.Heap.{Heap, store, store-at}
use my_common.Ctos.Rings.{ListNode}
use my_common.XList.Links.{first, last, Links, Links-store, Links-append}
use my_common.XList.Calls.{first-append, last-append}

-- Each entry is between its neighbours, where the first comes behind the last.
abbrev pub Ring : Heap ListNode → List ℕ → Type 0
Ring h ns = Links h (last none ns) ns (first ns none) × DistinctBy (λ n. n) ns

-- The first entry, set behind another one.
pub first-relinked :
    (h : Heap ListNode) (before stop v : Option ℕ) (n : ℕ) (ns : List ℕ)
    → Links h before (n ∷ ns) stop
    → DistinctBy (λ x. x) (n ∷ ns)
    → Links (store n (some (record { next = first ns stop; prev = v })) h) v (n ∷ ns) stop
first-relinked h before stop v n ns l d = (
  store-at n (some (record { next = first ns stop; prev = v })) h,
  Links-store h n (some (record { next = first ns stop; prev = v })) (some n) stop ns d.0 l.1,
)

pub turn-one : (h : Heap ListNode) (n : ℕ) (ns : List ℕ) → Ring h (n ∷ ns) → Ring h (ns ++ (n ∷ []))
turn-one h n ns (l, d) =
    let stop = first (ns ++ (n ∷ [])) none in
    let node : h n ≡ some (record { next = stop; prev = last (some n) ns }) =
      l.0
      ∙ ap (λ v. some (record { next = v; prev = last (some n) ns }))
          (first-append ns (n ∷ []) none) in
    (
      subst (λ v. Links h v (ns ++ (n ∷ [])) stop) (last-append ns (n ∷ []) none)
          (Links-append h (some n) stop ns (n ∷ []) l.1 (node, tt)),
      DistinctBy-snoc (λ x. x) ns n d.0 d.1,
    )

pub turn : (h : Heap ListNode) (ns ms : List ℕ) → Ring h (ns ++ ms) → Ring h (ms ++ ns)
turn h [] ms r = subst (Ring h) (sym (append-nil ms)) r
turn h (n ∷ ns) ms r = subst (Ring h) (append_assoc ms (n ∷ []) ns) (
    turn h ns (ms ++ (n ∷ []))
      (subst (Ring h) (append_assoc ns ms (n ∷ [])) (turn-one h n (ns ++ ms) r)))
