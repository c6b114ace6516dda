-- ===== src/ThreadSafeQueue/Create.antt =====
-- `queue_create` and `queue_destroy` of common/thread_safe_queue.c: what they acquire and release.
use my_common.Common.{
  ℕ, Bool, false, not, zero, suc, Option, none, some, List, [], ◌∷◌, if◌then◌else◌,
}
use my_common.Common.Events.{Event, acquire, release}
use my_common.ThreadSafeQueue.{Queue}

pub data QueuePart : Type 0 where
  queue_memory queue_mutex queue_cond : QueuePart

-- Which requests the platform grants.
pub record QueueGrants : Type 0 where
  pub memory_ok : Bool
  pub mutex_ok : Bool
  pub cond_ok : Bool

abbrev pub empty_queue : Queue
empty_queue = record { front = none; rear = none; size = 0; is_destroyed = false }

unfoldable pub queue_create : QueueGrants → Option Queue × List (Event QueuePart)
queue_create g =
    if not g.memory_ok
    then (none, [])
    else if not g.mutex_ok
    then (none, acquire queue_memory ∷ release queue_memory ∷ [])
    else if not g.cond_ok
    then (
      none,
      acquire queue_memory ∷ acquire queue_mutex ∷ release queue_mutex ∷ release queue_memory ∷ [],
    )
    else (some empty_queue, acquire queue_memory ∷ acquire queue_mutex ∷ acquire queue_cond ∷ [])

-- What `queue_destroy` releases behind `Clear.destroy`.
unfoldable pub queue_destroy_events : List (Event QueuePart)
queue_destroy_events = release queue_mutex ∷ release queue_cond ∷ release queue_memory ∷ []

-- `queue_free_removed_elements` on the two arrays, each there or null: which it frees, and both are
-- null behind it; or nothing happens.
unfoldable pub free_removed_elements : Option ℕ → Option ℕ → ℕ → List ℕ × Option ℕ × Option ℕ
free_removed_elements (some e) (some s) (suc n) = (e ∷ s ∷ [], none, none)
free_removed_elements (some e) (some s) zero = ([], some e, some s)
free_removed_elements (some e) none n = ([], some e, none)
free_removed_elements none s n = ([], none, s)
