-- ===== src/RequestQueue/Create.antt =====
-- `async_request_queue_create` and `async_request_queue_destroy` of common/request_que.c: what they
-- acquire and release, the pending queue's parts included.
use my_common.Common.{
  Bool, true, false, not, Option, none, some, List, [], ◌∷◌, ◌++◌, map, ◌≡◌, arith, if◌then◌else◌,
}
use my_common.Common.Events.{Event, acquire, release, held_after}
use my_common.ThreadSafeQueue.{Queue}
use my_common.ThreadSafeQueue.Create.{
  QueuePart, queue_memory, queue_mutex, queue_cond, QueueGrants, queue_create, queue_destroy_events,
}
use my_common.RequestQueue.{AsyncRequestQueue}
use my_common.RequestQueue.Table.{UtHash}

pub data RequestQueuePart : Type 0 where
  own_memory id_mutex table_mutex : RequestQueuePart
  pending_part : QueuePart → RequestQueuePart

pub record RequestQueueGrants : Type 0 where
  pub own_memory_ok : Bool
  pub pending_grants : QueueGrants
  pub id_mutex_ok : Bool
  pub table_mutex_ok : Bool

abbrev pub of_pending : Event QueuePart → Event RequestQueuePart
of_pending (acquire r) = acquire (pending_part r)
of_pending (release r) = release (pending_part r)

abbrev pub empty_requests : {T : Type 0} → UtHash T → Queue → AsyncRequestQueue T
empty_requests hash pending = record {
  requests = λ a. none;
  table = hash.empty;
  pending_queue = record { queue = pending; heap = λ a. none };
  next_id = 1;
  is_destroyed = false;
}

-- The rest of the creation, when the pending queue is there.
abbrev pub create_mutexes :
    {T : Type 0}
    → UtHash T
    → RequestQueueGrants
    → Queue
    → Option (AsyncRequestQueue T) × List (Event RequestQueuePart)
create_mutexes hash g pending =
    if not g.id_mutex_ok
    then (none, map of_pending queue_destroy_events ++ (release own_memory ∷ []))
    else if not g.table_mutex_ok
    then (
      none,
      acquire id_mutex
          ∷ release id_mutex
          ∷ (map of_pending queue_destroy_events ++ (release own_memory ∷ [])),
    )
    else (some (empty_requests hash pending), acquire id_mutex ∷ acquire table_mutex ∷ [])

unfoldable pub request_queue_create :
    {T : Type 0}
    → UtHash T
    → RequestQueueGrants
    → Option (AsyncRequestQueue T) × List (Event RequestQueuePart)
unfolding queue_create queue_destroy_events
request_queue_create hash g =
    if not g.own_memory_ok
    then (none, [])
    else let (pending, es) = queue_create g.pending_grants in
      elim pending [
        | none ↦ (none, acquire own_memory ∷ (map of_pending es ++ (release own_memory ∷ [])))
        | some p ↦
            let (q, rest) = create_mutexes hash g p in
            (q, acquire own_memory ∷ (map of_pending es ++ rest))
      ]

-- What `async_request_queue_destroy` releases behind `Destroy.destroy_requests`.
unfoldable pub request_queue_destroy_events : List (Event RequestQueuePart)
unfolding queue_destroy_events
request_queue_destroy_events =
    map of_pending queue_destroy_events
    ++ (release id_mutex ∷ release table_mutex ∷ release own_memory ∷ [])

abbrev pub same_queue_part : QueuePart → QueuePart → Bool
same_queue_part queue_memory queue_memory = true
same_queue_part queue_mutex queue_mutex = true
same_queue_part queue_cond queue_cond = true
same_queue_part _ _ = false

abbrev pub same_part : RequestQueuePart → RequestQueuePart → Bool
same_part own_memory own_memory = true
same_part id_mutex id_mutex = true
same_part table_mutex table_mutex = true
same_part (pending_part r) (pending_part s) = same_queue_part r s
same_part _ _ = false

-- What a creation leaves held: nothing when it fails; and when it gives a queue, what the destruction
-- then releases, each part once and with nothing left.
abbrev pub IsBalanced :
    {T : Type 0} → Option (AsyncRequestQueue T) × List (Event RequestQueuePart) → Type 0
IsBalanced (none, es) = held_after same_part es [] ≡ some []
IsBalanced (some q, es) = held_after same_part (es ++ request_queue_destroy_events) [] ≡ some []

-- Whatever requests the platform refuses, async_request_queue_create, with the queue_create that
-- it calls, releases all that it acquired before it returns NULL; and if it returns a queue, the
-- destruction releases each of its six parts exactly once.
pub request_queue_create-IsBalanced :
    {T : Type 0} (hash : UtHash T) (g : RequestQueueGrants)
    → IsBalanced (request_queue_create hash g)
unfolding request_queue_create request_queue_destroy_events queue_create queue_destroy_events
request_queue_create-IsBalanced hash g = ground arith
