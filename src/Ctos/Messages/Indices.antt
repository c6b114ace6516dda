-- ===== src/Ctos/Messages/Indices.antt =====
-- Which entries of `MessageArray` of common/ctos.c the live message queues have.
use my_common.Common.{
  ℕ, ◌≢◌, true, ◌&&◌, Option, none, some, List, [], ◌∷◌, ◌++◌, length, set, get_elem?, All, ltb,
  Bool-cases, inl, inr, ◌≡◌, refl, sym, ap, ap₂, subst, ◌∙◌, arith,
}
use my_common.Common.Distinct.{DistinctBy}
use my_common.Common.Words.{mul64}
use my_common.Ctos.Messages.{queue_nb_max}
use my_common.Ctos.Messages.Registry.{
  Platform, Queue, Registry, init_msg_queues, first_free, new_queue, create_at, create_with,
  create_queue, remove_queue, delete_queue,
}
use my_common.Ctos.Messages.Entries.{
  is_taken, IsValid, first_free-total, create-IsValid, delete-IsValid,
}

abbrev pub IsNew : Option ℕ → List Queue → Type 0
IsNew none qs = Unit
IsNew (some h) qs = All (λ q. q.address ≢ h) qs

-- A creation, at an address that no queue has, or the deletion of a queue of the list.
pub data Change (r u : Registry) : Type 0 where
  created :
      (p : Platform) (size n : ℕ)
      → IsNew p.handle_at r.queues
      → u ≡ (create_queue p size n r).1
      → Change r u
  deleted :
      (q : Queue) (waiting : ℕ) (qs qs' : List Queue)
      → r.queues ≡ qs ++ (q ∷ qs')
      → u ≡ (delete_queue q waiting r).0
      → Change r u

pub data Changes (s : Registry) : Registry → Type 0 where
  here : Changes s s
  next : {t u : Registry} → Changes s t → Change t u → Changes s u

create_at-IsValid :
    (p : Platform) (h a : ℕ) (r : Registry)
    → IsValid r.memories r.queues
    → All (λ q. q.address ≢ h) r.queues
    → IsValid (create_at p h a r).1.memories (create_at p h a r).1.queues
unfolding create_at
create_at-IsValid p h a r v new =
    elim (Bool-cases (ltb (first_free r.memories) queue_nb_max && p.used_ok)) [
      | inl y ↦ rw y (
          create-IsValid (r.memories) (r.queues) a (new_queue p h (first_free r.memories)) v
            (ground arith) refl new)
      | inr n ↦ rw n v
    ]

create_with-IsValid :
    (p : Platform) (r : Registry) (h a : Option ℕ)
    → IsValid r.memories r.queues
    → IsNew h r.queues
    → IsValid (create_with p r h a).1.memories (create_with p r h a).1.queues
create_with-IsValid p r none a v new = v
create_with-IsValid p r (some h) none v new = v
create_with-IsValid p r (some h) (some a) v new = create_at-IsValid p h a r v new

create_queue-IsValid :
    (p : Platform) (size n : ℕ) (r : Registry)
    → IsValid r.memories r.queues
    → IsNew p.handle_at r.queues
    → IsValid (create_queue p size n r).1.memories (create_queue p size n r).1.queues
unfolding create_queue
create_queue-IsValid p size n r v new = elim (Bool-cases p.node_ok) [
  | inl y ↦ rw y (create_with-IsValid p r p.handle_at (p.memory_at (mul64 size n)) v new)
  | inr m ↦ rw m v
]

delete_queue-IsValid :
    (q : Queue) (waiting : ℕ) (r : Registry) (qs qs' : List Queue)
    → r.queues ≡ qs ++ (q ∷ qs')
    → IsValid r.memories r.queues
    → IsValid (delete_queue q waiting r).0.memories (delete_queue q waiting r).0.queues
unfolding delete_queue
delete_queue-IsValid q waiting r qs qs' e v =
    let removed =
      subst (λ l. IsValid (set r.memories q.index none) (remove_queue q.address l)) (sym e)
        (delete-IsValid (r.memories) qs q qs' (subst (IsValid r.memories) e v)) in
    elim (Bool-cases (ltb q.index queue_nb_max)) [ inl y ↦ rw y removed | inr n ↦ rw n v ]

Change-IsValid :
    {r u : Registry} → IsValid r.memories r.queues → Change r u → IsValid u.memories u.queues
Change-IsValid {r} {u} v (created p size n new e) =
    subst (λ x. IsValid x.memories x.queues) (sym e) (create_queue-IsValid p size n r v new)
Change-IsValid {r} {u} v (deleted q waiting qs qs' at e) =
    subst (λ x. IsValid x.memories x.queues) (sym e) (delete_queue-IsValid q waiting r qs qs' at v)

Changes-IsValid :
    {s t : Registry} → IsValid s.memories s.queues → Changes s t → IsValid t.memories t.queues
Changes-IsValid v here = v
Changes-IsValid v (next c ch) = Change-IsValid (Changes-IsValid v c) ch

init-IsValid : IsValid init_msg_queues.memories []
init-IsValid = record { sizes = refl; taken = tt; by_index = tt; by_address = tt; counted = refl }

-- Behind any course of creations, refused or not, and deletions of message queues, one after the
-- other, no two live queues share an entry of MessageArray, each live queue's entry is taken, and
-- the search of os_message_create_queue finds a free entry exactly when fewer than 50 queues are
-- live.
pub reachable-own :
    {r : Registry}
    → Changes init_msg_queues r
    → DistinctBy Queue.index r.queues
      × All (λ q. is_taken (get_elem? r.memories q.index) ≡ true) r.queues
      × (ltb (first_free r.memories) queue_nb_max ≡ ltb (length r.queues) queue_nb_max)
reachable-own {r} c =
    let v = Changes-IsValid init-IsValid c in
    (
      v.by_index,
      v.taken,
      ap (ltb (first_free r.memories)) (sym v.sizes)
          ∙ first_free-total r.memories
          ∙ ap₂ ltb v.counted v.sizes,
    )
