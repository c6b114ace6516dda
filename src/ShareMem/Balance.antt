-- ===== src/ShareMem/Balance.antt =====
-- That the creation, the opening and the deletion of a shared-memory queue balance.
use my_common.Common.{
  ℕ, Bool, true, false, not, ◌&&◌, ◌||◌, Option, none, some, List, [], ◌∷◌, ◌++◌, ◌==◌,
  if◌then◌else◌, ◌≡◌, refl, arith,
}
use my_common.Common.Events.{Event, acquire, release, held_after}
use my_common.ShareMem.{ControlBlock}
use my_common.ShareMem.Segments.{
  Resource, handle, segment, mapping, attributes, mutex, sem_not_empty, sem_not_full, fresh, exists,
  refused, Platform, Opening, create, get_id, delete_events, finish_create, finish_open,
  generate_key,
}

abbrev pub same : Resource → Resource → Bool
same handle handle = true
same segment segment = true
same mapping mapping = true
same attributes attributes = true
same mutex mutex = true
same sem_not_empty sem_not_empty = true
same sem_not_full sem_not_full = true
same _ _ = false

-- All events of a call, and of the deletion where it gave a handle.
abbrev pub with_delete : Opening → List (Event Resource)
with_delete o = elim (o.result) [ none ↦ o.events | some h ↦ o.events ++ delete_events h ]

-- The call opened a segment of another process and could not attach it.
abbrev pub is_removal : Platform → ControlBlock → ℕ → ℕ → Option (List ℕ) → Bool
is_removal p b count size none = false
is_removal p b count size (some id) =
    not (size == 0 || count == 0)
    && p.handle_ok
    && (elim (generate_key p (some id)) [ none ↦ false | some k ↦ true ])
    && (elim (p.created) [ fresh ↦ false | refused ↦ false | exists ↦ true ])
    && p.opened
    && not p.attached

finish_create_balanced :
    (p : Platform) (id : List ℕ) (count size : ℕ)
    → held_after same (with_delete (finish_create p id count size)) [] ≡ some []
unfolding finish_create delete_events
finish_create_balanced p id count size = ground arith

-- The two ways to a segment that is there: `ShareMemQue_Create`, and `ShareMemQue_GetID`, which
-- mapped it before to read the sizes.
finish_open_balanced :
    (closes : Bool) (p : Platform) (b : ControlBlock) (id : List ℕ) (count size : ℕ)
    → (held_after same
          (with_delete
            (finish_open (acquire handle ∷ acquire mapping ∷ []) closes p b id count size))
          []
        ≡ some [])
      × (held_after same
            (with_delete (
              finish_open
                (acquire mapping ∷ release mapping ∷ acquire handle ∷ acquire mapping ∷ [])
                closes
                p
                b
                id
                count
                size))
            []
          ≡ some [])
unfolding finish_open delete_events
finish_open_balanced closes p b id count size = (ground arith, ground arith)

-- Whatever requests the platform refuses, ShareMemQue_Create and ShareMemQue_GetID release all
-- that they acquired before they return NULL, and if they return a handle, ShareMemQue_Delete
-- releases the rest exactly once; the one exception is a ShareMemQue_Create that opened the
-- segment of another process and cannot attach it, which removes that segment.
pub create_balanced :
    (p : Platform) (b probe : ControlBlock) (count size : ℕ) (id : Option (List ℕ))
    → (held_after same (with_delete (create p b count size id)) []
        ≡ (if is_removal p b count size id then none else some []))
      × (held_after same (with_delete (get_id p probe b id)) [] ≡ some [])
unfolding create get_id
create_balanced p b probe count size none = (refl, refl)
create_balanced p b probe count size (some id) = (
  ground (
    arith,
    finish_create_balanced p id count size,
    (finish_open_balanced true p b id count size).0,
  ),
  ground (arith, (finish_open_balanced false p b id probe.max_elements probe.element_size).1),
)
