-- ===== src/CommQue/Create.antt =====
-- `CommQue_Create` and `CommQue_Delete`: what they acquire and release, on every path.
use my_common.Common.{
  ℕ, Bool, true, false, ◌&&◌, Option, none, some, List, [], ◌∷◌, ◌++◌, ◌≡◌, arith, not,
  if◌then◌else◌,
}
use my_common.Common.Events.{Event, acquire, release, held_after}
use my_common.Common.Words.{mul64}
use my_common.CommQue.{CommQue}

pub data Resource : Type 0 where
  control mutex cond_full cond_empty buffer : Resource

-- Which requests the platform grants; the buffer's depends on its size in bytes.
pub record Platform : Type 0 where
  pub control_ok : Bool
  pub mutex_ok : Bool
  pub cond_full_ok : Bool
  pub cond_empty_ok : Bool
  pub buffer_ok : ℕ → Bool

abbrev pub fresh : ℕ → ℕ → CommQue
fresh count size = record {
  max_count = count;
  element_size = size;
  write = 0;
  read = 0;
  full_count = 0;
  empty_count = count;
  is_destroyed = false;
}

unfoldable pub create : Platform → ℕ → ℕ → Option CommQue × List (Event Resource)
create p count size =
    if not p.control_ok
    then (none, [])
    else if not p.mutex_ok
    then (none, acquire control ∷ release control ∷ [])
    else if not p.cond_full_ok
    then (none, acquire control ∷ acquire mutex ∷ release mutex ∷ release control ∷ [])
    else if not p.cond_empty_ok
    then (
      none,
      acquire control
          ∷ acquire mutex
          ∷ acquire cond_full
          ∷ release cond_full
          ∷ release mutex
          ∷ release control
          ∷ [],
    )
    else if not (p.buffer_ok (mul64 count size))
    then (
      none,
      acquire control
          ∷ acquire mutex
          ∷ acquire cond_full
          ∷ acquire cond_empty
          ∷ release cond_empty
          ∷ release cond_full
          ∷ release mutex
          ∷ release control
          ∷ [],
    )
    else (
      some (fresh count size),
      acquire control
          ∷ acquire mutex
          ∷ acquire cond_full
          ∷ acquire cond_empty
          ∷ acquire buffer
          ∷ [],
    )

-- What `CommQue_Delete` frees, behind `mark_destroyed` and a sleep of 5 ms.
unfoldable pub delete_events : List (Event Resource)
delete_events =
    release mutex ∷ release cond_full ∷ release cond_empty ∷ release buffer ∷ release control ∷ []

abbrev pub same : Resource → Resource → Bool
same control control = true
same mutex mutex = true
same cond_full cond_full = true
same cond_empty cond_empty = true
same buffer buffer = true
same _ _ = false

-- What a call of `create` leaves held: nothing when it fails; and when it gives a queue, what
-- `delete_events` then releases, each resource once and with nothing left.
abbrev pub IsBalanced : Option CommQue × List (Event Resource) → Type 0
IsBalanced (none, es) = held_after same es [] ≡ some []
IsBalanced (some q, es) = held_after same (es ++ delete_events) [] ≡ some []

-- Whatever requests the platform refuses, CommQue_Create releases all that it acquired before it
-- returns NULL; and if it returns a queue, CommQue_Delete releases each of its five resources
-- exactly once.
pub create-IsBalanced : (p : Platform) (count size : ℕ) → IsBalanced (create p count size)
unfolding create delete_events
create-IsBalanced p count size = ground arith

-- `CommQue_Create` returns a queue exactly when all five requests are granted, and then it is the
-- empty queue with every slot free.
pub create-some :
    (p : Platform) (count size : ℕ)
    → (create p count size).0 ≡ (
        if p.control_ok
          && p.mutex_ok
          && p.cond_full_ok
          && p.cond_empty_ok
          && p.buffer_ok (mul64 count size)
        then some (fresh count size)
        else none)
unfolding create
create-some p count size = ground arith
