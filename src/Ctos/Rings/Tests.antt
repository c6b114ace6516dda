-- ===== src/Ctos/Rings/Tests.antt =====
-- Concrete runs of the circular list of common/ctos.c.
use my_common.Common.{
  ℕ, suc, ◌-◌, Bool, true, Option, none, some, [], ◌∷◌, ltb, if◌then◌else◌, ◌≡◌, refl, arith,
}
use my_common.Common.Heap.{Heap}
use my_common.Ctos.Rings.{ListNode, list_init, list_add, list_add_tail, list_del, list_empty}
use my_common.Ctos.Rings.Turn.{Ring}
use my_common.Ctos.Rings.Entries.{Leads, del, run_call-Leads}
use my_common.XList.{◌>>=◌}

-- The list 0 with the entries 1 and 2, and the free entry 3.
abbrev memory : Heap ListNode
memory n =
    if ltb n 4
    then some (record {
      next = some (if ltb n 2 then suc n else 0);
      prev = some (if ltb 0 n then n - 1 else 2);
    })
    else none

abbrev next_of : Option ListNode → Option ℕ
next_of none = none
next_of (some x) = x.next

two : Ring memory (0 ∷ (1 ∷ (2 ∷ [])))
two = ((refl, (refl, (refl, tt))), omega arith)

run_call-Leads_example : Leads 0 (del 1) memory (1 ∷ (2 ∷ []))
run_call-Leads_example = run_call-Leads 0 (del 1) memory (1 ∷ (2 ∷ [])) two ([], (2 ∷ []), refl)

abbrev added : Option (Option ℕ)
added = do h ← list_add 3 0 memory; some (next_of (h 0))

test_added : added ≡ some (some 3)
unfolding list_add
test_added = refl

abbrev left : Option Bool
left = do h ← list_del 1 memory; g ← list_del 2 h; list_empty 0 g

test_empty : left ≡ some true
unfolding list_del list_empty
test_empty = refl

abbrev queued : Option (Option ℕ)
queued = do
  h ← list_init 3 memory
  g ← list_add_tail 1 3 h
  f ← list_add_tail 2 3 g
  some (next_of (f 3))

test_queued : queued ≡ some (some 1)
unfolding list_init list_add_tail
test_queued = refl
