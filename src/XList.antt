-- ===== src/XList.antt =====
-- common/xlist.c: a doubly linked list of nodes that the caller owns. A null list or node is tested
-- first in each function of the source; here both are there. A result `none` stands for the use of
-- a node that is not in memory.
pub mod Links
pub mod Calls
pub mod Remove
pub mod Insert
mod Tests
use my_common.Common.{
  ℕ, ◌+◌, ◌-◌, Bool, true, false, Option, none, some, List, [], ◌∷◌, ◌==◌, if◌then◌else◌,
}
use my_common.Common.Heap.{Heap, store}

-- `T_StdNodeDef`.
pub record StdNode : Type 0 where
  pub next : Option ℕ
  pub prev : Option ℕ

-- `T_StdListDef`, whose size is not negative and below what an `int` has room for.
pub record StdList : Type 0 where
  pub head : Option ℕ
  pub tail : Option ℕ
  pub size : ℕ

-- The list and the memory of the nodes.
pub record Lists : Type 0 where
  pub list : StdList
  pub nodes : Heap StdNode

abbrev pub list_init : StdList
list_init = record { head = none; tail = none; size = 0 }

infixl 20 ◌>>=◌
abbrev pub ◌>>=◌ : {A B : Type 0} → Option A → (A → Option B) → Option B
none >>= f = none
(some x) >>= f = f x

-- A write to fields of the node at `a`.
unfoldable pub change : ℕ → (StdNode → StdNode) → Heap StdNode → Option (Heap StdNode)
change a f h = elim (h a) [ none ↦ none | some n ↦ some (store a (some (f n)) h) ]

-- `p->next = v`, or `list->head = v` where `p` is null.
unfoldable pub set_next : Option ℕ → Option ℕ → Lists → Option Lists
unfolding change
set_next none v s = some (record s { list = record s.list { head = v } })
set_next (some p) v s = do
  h ← change p (λ n. record n { next = v }) s.nodes
  some (record s { nodes = h })

-- `p->prev = v`, or `list->tail = v` where `p` is null.
unfoldable pub set_prev : Option ℕ → Option ℕ → Lists → Option Lists
unfolding change
set_prev none v s = some (record s { list = record s.list { tail = v } })
set_prev (some p) v s = do
  h ← change p (λ n. record n { prev = v }) s.nodes
  some (record s { nodes = h })

abbrev resized : (ℕ → ℕ) → Lists → Lists
resized f s = record s { list = record s.list { size = f s.list.size } }

unfoldable pub push_back : ℕ → Lists → Option Lists
unfolding set_next
push_back n s = do
  h ← change n (λ x. record { next = none; prev = s.list.tail }) s.nodes
  s1 ← set_next s.list.tail (some n) (record s { nodes = h })
  some (resized (λ k. k + 1) (record s1 { list = record s1.list { tail = some n } }))

unfoldable pub push_front : ℕ → Lists → Option Lists
unfolding set_prev
push_front n s = do
  h ← change n (λ x. record { next = s.list.head; prev = none }) s.nodes
  s1 ← set_prev s.list.head (some n) (record s { nodes = h })
  some (resized (λ k. k + 1) (record s1 { list = record s1.list { head = some n } }))

unfoldable pub insert_after : ℕ → ℕ → Lists → Option Lists
unfolding set_prev change
insert_after p n s = elim (s.nodes p) [
  | none ↦ none
  | some before ↦ do
    h ← change n (λ x. record { next = before.next; prev = some p }) s.nodes
    s1 ← set_prev before.next (some n) (record s { nodes = h })
    h2 ← change p (λ x. record x { next = some n }) s1.nodes
    some (resized (λ k. k + 1) (record s1 { nodes = h2 }))
]

unfoldable pub remove_node : ℕ → Lists → Option Lists
unfolding set_prev set_next change
remove_node n s = if s.list.size == 0 then some s else elim (s.nodes n) [
  | none ↦ none
  | some x ↦ do
    s1 ← set_next x.prev x.next s
    s2 ← set_prev x.next x.prev s1
    h ← change n (λ y. record { next = none; prev = none }) s2.nodes
    some (resized (λ k. k - 1) (record s2 { nodes = h }))
]
