-- ===== src/JsonRpc/Methods.antt =====
-- The methods of common/jsonrpc/jsonrpcService.c, in a list of common/xlist.c.
pub mod Find
pub mod Entries
pub mod Change
use my_common.Common.{
  ℕ, zero, suc, Bool, true, false, Option, none, some, List, [], ◌∷◌, ◌++◌, if◌then◌else◌,
}
use my_common.Common.Strings.{str_eq}
use my_common.Common.StateCode.{StateCode, no_error, allocation_failure}
use my_common.Common.Heap.{Heap, store}
use my_common.XList.{StdNode, Lists, push_back, remove_node, ◌>>=◌}

-- `jsonrpc_method_t` behind its list node; a handler is the number of its function.
pub record Method : Type 0 where
  pub method_name : List ℕ
  pub handler : ℕ

-- The method list of a service, and the memory of the methods, whose nodes have their addresses.
pub record Table : Type 0 where
  pub lists : Lists
  pub methods : Heap Method

-- The loop of `MethodFindNode`. Behind `fuel` rounds, or at memory that is not there, it gives none.
unfoldable pub find_from : ℕ → List ℕ → Option ℕ → Table → Option (Option ℕ)
unfolding str_eq
find_from zero name cur t = none
find_from (suc fuel) name none t = some none
find_from (suc fuel) name (some n) t = do
  x ← t.lists.nodes n
  m ← t.methods n
  let rest = find_from fuel name x.next t
  if str_eq m.method_name name then some (some n) else rest

unfoldable pub method_find_node : ℕ → List ℕ → Table → Option (Option ℕ)
unfolding find_from
method_find_node fuel name t = find_from fuel name t.lists.list.head t

-- Behind the search of `jsonrpc_service_register_method`; `memory` is what its `malloc` gives.
abbrev pub add_method : Option ℕ → Method → Option ℕ → Table → Option (StateCode × Table)
add_method memory m (some n) t = some (no_error, t)
add_method none m none t = some (allocation_failure, t)
add_method (some a) m none t = do
  s ← push_back a (record t.lists {
    nodes = store a (some (record { next = none; prev = none })) t.lists.nodes;
  })
  some (no_error, record { lists = s; methods = store a (some m) t.methods })

unfoldable pub register_method : ℕ → Option ℕ → Method → Table → Option (StateCode × Table)
unfolding push_back method_find_node
register_method fuel memory m t = do
  found ← method_find_node fuel m.method_name t
  add_method memory m found t

-- Behind the search of `jsonrpc_service_unregister_method`.
abbrev pub drop_method : Option ℕ → Table → Option (StateCode × Table)
drop_method none t = some (no_error, t)
drop_method (some n) t = do
  s ← remove_node n t.lists
  some (
    no_error,
    record { lists = record s { nodes = store n none s.nodes }; methods = store n none t.methods },
  )

unfoldable pub unregister_method : ℕ → List ℕ → Table → Option (StateCode × Table)
unfolding remove_node method_find_node
unregister_method fuel name t = do found ← method_find_node fuel name t; drop_method found t

-- The specification: the methods in the order of their registration.
unfoldable pub find_method : List ℕ → List Method → Option Method
find_method name [] = none
find_method name (m ∷ ms) = if str_eq m.method_name name then some m else find_method name ms

-- The first registration of a name counts.
abbrev pub joined : Method → List Method → Option Method → List Method
joined m ms none = ms ++ (m ∷ [])
joined m ms (some n) = ms

unfoldable pub with_method : Method → List Method → List Method
unfolding find_method
with_method m ms = joined m ms (find_method m.method_name ms)

unfoldable pub without_method : List ℕ → List Method → List Method
without_method name [] = []
without_method name (m ∷ ms) = if str_eq m.method_name name then ms else m ∷ without_method name ms
