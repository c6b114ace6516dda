-- ===== src/RequestQueue/Requests.antt =====
-- common/request_que.c and request_que.h: the requests, their statuses, ids and limits.
use my_common.Common.{
  ℕ, ◌+◌, ◌^◌, Bool, true, false, ◌&&◌, Option, none, some, ltb, leb, ◌==◌, if◌then◌else◌,
}
use my_common.Common.Heap.{Heap}
use my_common.Common.Words.{add64}
use my_common.CommQue.{Ret}
use my_common.ThreadSafeQueue.{Node, Store}

pub data RequestStatus : Type 0 where
  pending processing completed failed cancelled timeout : RequestStatus

-- `AsyncRequest` without its data, context, callback, mutex, condition variable and hash handle. The
-- timeout is the 64-bit word of an `int64_t`; the submit time is a 32-bit reading of the clock.
pub record AsyncRequest : Type 0 where
  pub id : ℕ
  pub status : RequestStatus
  pub timeout_ms : ℕ
  pub submit_time : ℕ
  pub is_waiting : Bool
  pub is_sync : Bool
  pub need_free : Bool

-- `AsyncRequestQueue`, with the memory of the requests and, in `pending_queue`, that of the nodes.
pub record AsyncRequestQueue (T : Type 0) : Type 0 where
  pub requests : Heap AsyncRequest
  pub table : T
  pub pending_queue : Store
  pub next_id : ℕ
  pub is_destroyed : Bool

-- What a submission finds: the allocators of requests and nodes, whether a mutex and a condition
-- variable can be had, the time, and what the new memory has in `bNeedFree`, which nothing sets.
pub record Platform : Type 0 where
  pub malloc_request : Heap AsyncRequest → Option ℕ
  pub malloc_node : Heap Node → Option ℕ
  pub mutex_ok : Bool
  pub cond_ok : Bool
  pub now : ℕ
  pub found_need_free : Bool

abbrev pub new_request : Platform → ℕ → ℕ → AsyncRequest
new_request env timeout_ms k = record {
  id = k;
  status = pending;
  timeout_ms = timeout_ms;
  submit_time = env.now;
  is_waiting = false;
  is_sync = false;
  need_free = env.found_need_free;
}

-- The address of the new request.
unfoldable pub create_request : Platform → Heap AsyncRequest → Option ℕ
create_request env h = elim (env.malloc_request h) [
  | none ↦ none
  | some a ↦ if env.mutex_ok && env.cond_ok then some a else none
]

-- queue->next_id++, and 1 in place of 0.
unfoldable pub id_after : ℕ → ℕ
id_after k = if add64 k 1 == 0 then 1 else add64 k 1

abbrev pub is_pending : RequestStatus → Bool
is_pending pending = true
is_pending processing = false
is_pending completed = false
is_pending failed = false
is_pending cancelled = false
is_pending timeout = false

-- The statuses at which `async_request_wait` returns at once.
abbrev pub is_done : RequestStatus → Bool
is_done pending = false
is_done processing = false
is_done completed = true
is_done failed = true
is_done cancelled = true
is_done timeout = true

-- `timeout_ms > 0` in `int64_t`.
abbrev pub positive : ℕ → Bool
positive w = ltb 0 w && ltb w (2 ^ 63)

-- `current_time - submit_time >= timeout_ms` for a positive limit.
abbrev pub expired : ℕ → AsyncRequest → Bool
expired now r = positive r.timeout_ms && leb (r.submit_time + r.timeout_ms) now

abbrev pub woken_up : Bool → AsyncRequest → AsyncRequest
woken_up signalled r = record r {
  is_waiting = false;
  need_free = if signalled then true else r.need_free;
}

-- A wait that returned, or that sleeps on the request at an address.
pub data WaitStart : Type 0 where
  answered : Ret → WaitStart
  sleeps_on : ℕ → WaitStart

-- `QueueStats` without `completed_count`, which nothing sets.
pub record QueueStats : Type 0 where
  pub pending_count : ℕ
  pub processing_count : ℕ
  pub total_count : ℕ
