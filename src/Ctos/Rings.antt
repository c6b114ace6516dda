-- ===== src/Ctos/Rings.antt =====
-- The circular list of common/ctos.c (`os_list_*`), whose entries the callers own. A result `none`
-- stands for the use of a null pointer or of an entry that is not in memory.
pub mod Turn
pub mod Calls
pub mod Entries
mod Tests
use my_common.Common.{ℕ, Bool, true, false, Option, none, some, ◌==◌}
use my_common.Common.Heap.{Heap}
use my_common.XList.{StdNode, change, ◌>>=◌}

-- `g_list_t`, which has the fields of a T_StdNodeDef.
abbrev pub ListNode : Type 0
ListNode = StdNode

-- `p->next = v` and `p->prev = v`.
unfoldable pub write_next : Option ℕ → Option ℕ → Heap ListNode → Option (Heap ListNode)
unfolding change
write_next none v h = none
write_next (some p) v h = change p (λ n. record n { next = v }) h

unfoldable pub write_prev : Option ℕ → Option ℕ → Heap ListNode → Option (Heap ListNode)
unfolding change
write_prev none v h = none
write_prev (some p) v h = change p (λ n. record n { prev = v }) h

unfoldable pub list_init : ℕ → Heap ListNode → Option (Heap ListNode)
unfolding change
list_init list h = change list (λ n. record { next = some list; prev = some list }) h

unfoldable pub list_add : ℕ → ℕ → Heap ListNode → Option (Heap ListNode)
unfolding change write_next write_prev
list_add new head h = do
  x ← h head
  h1 ← change new (λ n. record { next = x.next; prev = some head }) h
  y ← h1 head
  h2 ← write_prev y.next (some new) h1
  write_next (some head) (some new) h2

unfoldable pub list_add_tail : ℕ → ℕ → Heap ListNode → Option (Heap ListNode)
unfolding change write_next write_prev
list_add_tail new head h = do
  x ← h head
  h1 ← change new (λ n. record { next = some head; prev = x.prev }) h
  y ← h1 head
  h2 ← write_next y.prev (some new) h1
  write_prev (some head) (some new) h2

unfoldable pub list_del : ℕ → Heap ListNode → Option (Heap ListNode)
unfolding change write_next write_prev
list_del entry h = do
  x ← h entry
  h1 ← write_prev x.next x.prev h
  y ← h1 entry
  h2 ← write_next y.prev y.next h1
  change entry (λ n. record { next = none; prev = none }) h2

abbrev pub points_to : Option ℕ → ℕ → Bool
points_to none a = false
points_to (some p) a = p == a

unfoldable pub list_empty : ℕ → Heap ListNode → Option Bool
list_empty head h = do x ← h head; some (points_to x.next head)
