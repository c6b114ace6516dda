-- ===== src/MsgQueue/Create.antt =====
-- `msg_queue_create` and `msg_queue_destroy` of common/msgqueue.c, with the CommQue that they make
-- and delete.
use my_common.Common.{
  ℕ, Bool, Option, none, some, List, [], ◌∷◌, ◌++◌, map, ◌==◌, if◌then◌else◌, ◌≡◌, arith,
}
use my_common.Common.Events.{Event, acquire, release, held_after}
use my_common.CommQue.{CommQue}
use my_common.CommQue.Create
use my_common.CommQue.Create.{Platform}
use my_common.MsgQueue.{Msg, MsgQueue, clear_queue}

-- The handle, and what the ring has.
pub data Resource : Type 0 where
  handle : Resource
  ring : Create.Resource → Resource

abbrev pub same : Resource → Resource → Bool
same handle handle = Bool.true
same (ring a) (ring b) = Create.same a b
same _ _ = Bool.false

abbrev pub on_ring : Event Create.Resource → Event Resource
on_ring (acquire r) = acquire (ring r)
on_ring (release r) = release (ring r)

-- A slot that `CommQue_Create` has cleared.
abbrev pub blank : Msg
blank = record { command = 0; msg_id = []; body = none; call_id = 0 }

abbrev pub with_ring :
    Option CommQue × List (Event Create.Resource) → Option MsgQueue × List (Event Resource)
with_ring (none, es) = (none, acquire handle ∷ (map on_ring es ++ (release handle ∷ [])))
with_ring (some q, es) =
    (some (record { que = q; pool = λ p. blank }), acquire handle ∷ map on_ring es)

-- A `T_Msg` has 56 bytes; `handle_ok` says whether there is memory for the handle.
unfoldable pub create : Bool → Platform → ℕ → Option MsgQueue × List (Event Resource)
unfolding Create.create
create handle_ok p max_msg_count =
    if max_msg_count == 0
    then (none, [])
    else if handle_ok
    then with_ring (Create.create p max_msg_count 56)
    else (none, [])

unfoldable pub destroy_events : List (Event Resource)
unfolding Create.delete_events
destroy_events = map on_ring Create.delete_events ++ (release handle ∷ [])

-- `msg_queue_destroy`: the bodies that it frees, newest first, and then what it releases.
unfoldable pub destroy : ℕ → MsgQueue → Option (List ℕ × List (Event Resource))
unfolding clear_queue destroy_events
destroy fuel q = elim (clear_queue fuel [] q) [
  | none ↦ none
  | some (freed, q') ↦ some (freed, destroy_events)
]

-- What a queue holds.
abbrev pub owned : List Resource
owned =
    ring Create.buffer
    ∷ ring Create.cond_empty
    ∷ ring Create.cond_full
    ∷ ring Create.mutex
    ∷ ring Create.control
    ∷ handle
    ∷ []

abbrev pub IsOwned : Option MsgQueue × List (Event Resource) → Type 0
IsOwned (none, es) = held_after same es [] ≡ some []
IsOwned (some q, es) = held_after same es [] ≡ some owned

-- Whatever fails, a failed creation holds nothing, and a queue holds its six resources.
pub create-IsOwned :
    (handle_ok : Bool) (p : Platform) (max_msg_count : ℕ)
    → IsOwned (create handle_ok p max_msg_count)
unfolding create
create-IsOwned handle_ok p max_msg_count = ground arith
