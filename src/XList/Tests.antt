-- ===== src/XList/Tests.antt =====
-- The list of common/xlist.c on concrete nodes.
use my_common.Common.{ℕ, ◌≡◌, refl, Option, none, some, [], ◌∷◌, arith}
use my_common.Common.Heap.{store}
use my_common.XList.{StdNode, Lists, ◌>>=◌, push_front, insert_after, remove_node}
use my_common.XList.Links.{Holds}
use my_common.XList.Remove.{remove_node-Holds}

abbrev unlinked : StdNode
unlinked = record { next = none; prev = none }

abbrev two_nodes : Lists
two_nodes = record {
  list = record { head = some 4; tail = some 6; size = 2 };
  nodes = store 4 (some (record { next = some 6; prev = none })) (
      store 6 (some (record { next = none; prev = some 4 })) (store 9 (some unlinked) (λ a. none)));
}

two_nodes-Holds : Holds two_nodes (4 ∷ (6 ∷ []))
two_nodes-Holds = record {
  head_at = refl;
  tail_at = refl;
  size_at = refl;
  links = (refl, (refl, tt));
  distinct = ((omega arith, tt), (tt, tt));
}

abbrev forward : Option Lists → Option ℕ × Option ℕ × Option ℕ
forward none = (none, none, none)
forward (some s) = (s.list.head, s.list.tail, some s.list.size)

run_of_calls :
    forward (do
      s1 ← push_front 9 two_nodes
      s2 ← remove_node 4 s1
      s3 ← insert_after 9 4 s2
      remove_node 6 s3)
    ≡ (some 9, some 4, some 2)
unfolding push_front insert_after remove_node
run_of_calls = refl

remove_node-Holds_example :
    (s' : Lists) × (remove_node 4 two_nodes ≡ some s')
    × Holds s' (6 ∷ [])
    × (s'.nodes 4 ≡ some (record { next = none; prev = none }))
remove_node-Holds_example = remove_node-Holds 4 two_nodes [] (6 ∷ []) two_nodes-Holds
