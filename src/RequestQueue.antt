-- ===== src/RequestQueue.antt =====
-- common/request_que.c: requests with an id and a status, in a table by id and in a queue of pending
-- requests. Each call runs as one step, but a wait, which has a step before and one after it sleeps.
-- A result `none` stands for the use of a freed request or node.
pub mod Requests
pub mod Table
pub mod Slots
pub mod Calls
pub mod Complete
pub mod Fresh
pub mod Submit
pub mod Sweep
pub mod Cleanup
pub mod Dangling
pub mod Clock
pub mod Destroy
pub mod Create
mod Tests
use my_common.Common.{
  ℕ, ◌+◌, ◌-◌, ◌^◌, Bool, true, false, not, ◌&&◌, ◌||◌, Option, none, some, List, [], ◌∷◌, ◌++◌,
  map, ltb, leb, ◌==◌, if◌then◌else◌,
}
use my_common.Common.Heap.{Heap, store}
use my_common.Common.Words.{add64}
use my_common.CommQue.{Ret, success, failure, forever}
use my_common.ThreadSafeQueue.{Node, Store, enqueue, Dequeued, dequeued, waiting, dequeue, size}
use my_common.RequestQueue.Table.{UtHash, Entry}
unfoldable pub use my_common.RequestQueue.Requests.{create_request, id_after}
pub use my_common.RequestQueue.Requests.{
  pending, processing, completed, failed, cancelled, timeout, answered, sleeps_on, new_request,
  is_pending, is_done, positive, expired, woken_up, RequestStatus, AsyncRequest, AsyncRequestQueue,
  Platform, WaitStart, QueueStats,
}

module _ {T : Type 0} (hash : UtHash T) where
  -- The insertion into the table and the queue, which is undone where the queue refuses.
  unfoldable pub insert_request :
      Platform → ℕ → AsyncRequest → AsyncRequestQueue T → Option (ℕ × AsyncRequestQueue T)
  unfolding enqueue
  insert_request env a r q = elim (enqueue env.malloc_node (some a) 8 q.pending_queue) [
    | none ↦ none
    | some (ret, notices, s) ↦ elim ret [
      | success ↦ some (
        r.id,
        record q {
          requests = store a (some r) q.requests;
          table = hash.add r.id a q.table;
          pending_queue = s;
        },
      )
      | failure ↦ some (
        0,
        record q {
          requests = store a none q.requests;
          table = hash.del a (hash.add r.id a q.table);
          pending_queue = s;
        },
      )
    ]
  ]

  unfoldable pub request_submit :
      Platform → ℕ → AsyncRequestQueue T → Option (ℕ × AsyncRequestQueue T)
  unfolding create_request id_after insert_request
  request_submit env timeout_ms q =
      if q.is_destroyed
      then some (0, q)
      else let q1 : AsyncRequestQueue T = record q { next_id = id_after q.next_id } in
        elim (create_request env q.requests) [
          | none ↦ some (0, q1)
          | some a ↦ insert_request env a (new_request env timeout_ms q.next_id) q1
        ]

  -- A change of the request at an address.
  unfoldable pub update_request :
      ℕ → (AsyncRequest → AsyncRequest) → AsyncRequestQueue T → Option (AsyncRequestQueue T)
  update_request a f q = elim (q.requests a) [
    | none ↦ none
    | some r ↦ some (record q { requests = store a (some (f r)) q.requests })
  ]

  -- A fetch that returned, or that waits at an empty queue.
  abbrev pub fetched :
      AsyncRequestQueue T → Option Dequeued → Option (Option ℕ × AsyncRequestQueue T)
  fetched q none = none
  fetched q (some (waiting s)) = some (none, q)
  fetched q (some (dequeued none s)) = some (none, record q { pending_queue = s })
  fetched q (some (dequeued (some (a, n)) s)) =
      elim (update_request a (λ r. record r { status = processing })
        (record q { pending_queue = s })) [ none ↦ none | some q' ↦ some (some a, q') ]

  -- `async_request_fetch`; one that waits does its step when it is woken.
  unfoldable pub request_fetch : AsyncRequestQueue T → Option (Option ℕ × AsyncRequestQueue T)
  unfolding dequeue update_request
  request_fetch q =
      if q.is_destroyed then some (none, q) else fetched q (dequeue forever [] q.pending_queue)

  -- `async_request_complete`, with whether it signals the condition variable of the request.
  unfoldable pub request_complete :
      ℕ → RequestStatus → AsyncRequestQueue T → Option (Bool × AsyncRequestQueue T)
  request_complete a status q = if q.is_destroyed then some (false, q) else elim (q.requests a) [
    | none ↦ none
    | some r ↦ some (
      r.is_waiting,
      record q { requests = store a (some (record r { status = status })) q.requests },
    )
  ]

  abbrev pub cancel_at : ℕ → AsyncRequest → AsyncRequestQueue T → Bool × AsyncRequestQueue T
  cancel_at a r q = if not (is_pending r.status) then (false, q) else (
    true,
    record q {
      requests = store a (some (record r { status = cancelled; need_free = true })) q.requests;
    },
  )

  unfoldable pub request_cancel : ℕ → AsyncRequestQueue T → Option (Bool × AsyncRequestQueue T)
  request_cancel k q = if q.is_destroyed then some (false, q) else elim (hash.find k q.table) [
    | none ↦ some (false, q)
    | some a ↦ elim (q.requests a) [ none ↦ none | some r ↦ some (cancel_at a r q) ]
  ]

  abbrev pub wait_at : ℕ → AsyncRequest → AsyncRequestQueue T → WaitStart × AsyncRequestQueue T
  wait_at a r q =
      if is_done r.status
      then (
        answered success,
        record q { requests = store a (some (record r { need_free = true })) q.requests },
      )
      else (
        sleeps_on a,
        record q { requests = store a (some (record r { is_waiting = true })) q.requests },
      )

  -- `async_request_wait` until it returns or sleeps.
  unfoldable pub request_wait : ℕ → AsyncRequestQueue T → Option (WaitStart × AsyncRequestQueue T)
  request_wait k q =
      if q.is_destroyed then some (answered failure, q) else elim (hash.find k q.table) [
        | none ↦ some (answered failure, q)
        | some a ↦ elim (q.requests a) [ none ↦ none | some r ↦ some (wait_at a r q) ]
      ]

  -- `async_request_wait` behind its sleep, which ended by a wake or by the timeout or an error.
  unfoldable pub request_wake : ℕ → Bool → AsyncRequestQueue T → Option (Ret × AsyncRequestQueue T)
  unfolding update_request
  request_wake a signalled q = elim (update_request a (woken_up signalled) q) [
    | none ↦ none
    | some q' ↦ some (if signalled then success else failure, q')
  ]

  unfoldable pub queue_stats : AsyncRequestQueue T → QueueStats
  unfolding size
  queue_stats q =
      let total = hash.count q.table in
      let queued = size q.pending_queue in
      record {
        pending_count = queued;
        processing_count = if ltb queued total then total - queued else 0;
        total_count = total;
      }

  unfoldable pub request_status : ℕ → AsyncRequestQueue T → Option RequestStatus
  request_status k q = elim (hash.find k q.table) [
    | none ↦ some failed
    | some a ↦ elim (q.requests a) [ none ↦ none | some r ↦ some r.status ]
  ]

  -- One round of `async_request_cleanup_completed`, at the request at `a`.
  unfoldable pub clean_at : ℕ → ℕ → AsyncRequest → AsyncRequestQueue T → AsyncRequestQueue T
  clean_at now a r q =
      if r.need_free
      then record q { table = hash.del a q.table; requests = store a none q.requests }
      else if is_pending r.status && expired now r
      then record q {
        requests = store a (some (record r { status = timeout; need_free = true })) q.requests;
      }
      else q

  unfoldable pub clean_from : ℕ → List Entry → AsyncRequestQueue T → Option (AsyncRequestQueue T)
  unfolding clean_at
  clean_from now [] q = some q
  clean_from now ((k, a) ∷ es) q = elim (q.requests a) [
    | none ↦ none
    | some r ↦ clean_from now es (clean_at now a r q)
  ]

  -- HASH_ITER has the next entry before it deletes one, so the loop goes over the entries found first.
  unfoldable pub cleanup_completed : ℕ → AsyncRequestQueue T → Option (AsyncRequestQueue T)
  unfolding clean_from
  cleanup_completed now q = clean_from now (hash.entries q.table) q
