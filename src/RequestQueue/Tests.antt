-- ===== src/RequestQueue/Tests.antt =====
-- The requests of common/request_que.c on concrete calls.
use my_common.Common.{
  ℕ, ◌≡◌, ◌≢◌, ◌⊎◌, refl, true, false, ◌&&◌, Option, none, some, List, [], ◌∷◌, ◌++◌, length, All,
  arith, Option-cases, inl, inr, leb, ◌==◌, ◌-◌, ◌/◌, ◌^◌,
}
use my_common.Common.Heap.{Heap, store}
use my_common.CommQue.{success}
use my_common.ThreadSafeQueue.{Store}
use my_common.ThreadSafeQueue.Chain
use my_common.ThreadSafeQueue.Chain.{Cell, node}
use my_common.RequestQueue.{
  pending, processing, completed, AsyncRequest, AsyncRequestQueue, Platform, expired, request_fetch,
  request_cancel, request_status, request_wait, request_complete, request_wake, woken_up, sleeps_on,
  cleanup_completed,
}
use my_common.RequestQueue.Create.{RequestQueueGrants}
use my_common.RequestQueue.Table.{Entry, UtHash, Laws, lookup, without}
use my_common.RequestQueue.Slots.{Slot, amend, Holds}
use my_common.RequestQueue.Calls.{await_it}
use my_common.RequestQueue.Complete.{complete_it, wait_complete}
use my_common.RequestQueue.Submit.{Accepted, Refused, request_submit-Holds}
use my_common.RequestQueue.Sweep.{sweep}
use my_common.RequestQueue.Cleanup.{Swept, cleanup_completed-sweep}
use my_common.RequestQueue.Dangling.{cancel-dangles}
use my_common.RequestQueue.Clock.{cpu_start_in_msec, expired-elapsed}

-- A table that is the list of its entries.
abbrev list_hash : UtHash (List Entry)
list_hash = record {
  empty = [];
  add = λ k a t. t ++ ((k, a) ∷ []);
  del = without;
  find = lookup;
  entries = λ t. t;
  count = length;
}

list_hash-Laws : Laws list_hash
list_hash-Laws = record {
  entries-empty = refl;
  entries-add = λ k a t. refl;
  entries-del = λ a t. refl;
  find-lookup = λ k t u. refl;
  count-length = λ t. refl;
}

abbrev request_1 : AsyncRequest
request_1 = record {
  id = 1;
  status = pending;
  timeout_ms = 50;
  submit_time = 1000;
  is_waiting = false;
  is_sync = false;
  need_free = false;
}

abbrev request_2 : AsyncRequest
request_2 = record request_1 { id = 2; status = processing }

abbrev two_slots : List Slot
two_slots =
    record { addr = 100; request = request_1 } ∷ (record { addr = 200; request = request_2 } ∷ [])

abbrev cell_5 : Cell
cell_5 = record { addr = 5; data_ptr = 100; data_size = 8 }

abbrev one_node : Store
one_node = record {
  queue = record { front = some 5; rear = some 5; size = 1; is_destroyed = false };
  heap = store 5 (some (node cell_5 none)) (λ a. none);
}

one_node-Holds : Chain.Holds one_node (cell_5 ∷ [])
one_node-Holds = record {
  front_at = refl;
  rear_at = refl;
  size_at = refl;
  chain = (refl, tt);
  distinct = (tt, tt);
}

abbrev two_requests : AsyncRequestQueue (List Entry)
two_requests = record {
  requests = store 100 (some request_1) (store 200 (some request_2) (λ a. none));
  table = (1, 100) ∷ ((2, 200) ∷ []);
  pending_queue = one_node;
  next_id = 3;
  is_destroyed = false;
}

two_requests-Holds : Holds list_hash two_requests two_slots
two_requests-Holds = record {
  entries_at = refl;
  stored = (refl, (refl, tt));
  apart = ((omega arith, tt), (tt, tt));
  unique = ((omega arith, tt), (tt, tt));
  given = ((omega arith, omega arith), ((omega arith, omega arith), tt));
}

-- Allocators with room for one request and one node more.
abbrev one_place : {A : Type 0} → ℕ → Heap A → Option ℕ
one_place a h = elim (h a) [ none ↦ some a | some x ↦ none ]

one_place-unused : {A : Type 0} (a : ℕ) (h : Heap A) (b : ℕ) → one_place a h ≡ some b → h b ≡ none
one_place-unused a h b e = elim (Option-cases (h a)) [
  | inl ea ↦ ground (arith, ea, e)
  | inr (x, ea) ↦ absurd (ground (arith, ea, e))
]

abbrev platform : Platform
platform = record {
  malloc_request = one_place 300;
  malloc_node = one_place 7;
  mutex_ok = true;
  cond_ok = true;
  now = 1020;
  found_need_free = false;
}

request_submit-Holds_example :
    All {A = Entry} (λ e. e.0 ≢ 3) ((1, 100) ∷ ((2, 200) ∷ []))
    × (Accepted list_hash list_hash-Laws platform 50 two_requests two_slots two_requests-Holds
          (cell_5 ∷ [])
        ⊎ Refused list_hash list_hash-Laws platform 50 two_requests two_slots two_requests-Holds
            (cell_5 ∷ []))
request_submit-Holds_example =
    request_submit-Holds list_hash list_hash-Laws platform 50 two_requests two_slots
      two_requests-Holds (cell_5 ∷ []) one_node-Holds (one_place-unused 300) (one_place-unused 7)
      refl refl (omega arith) (omega arith) (omega arith)

wait_complete_example :
    (a : ℕ) × (q1 : AsyncRequestQueue (List Entry)) × (q2 : AsyncRequestQueue (List Entry))
    × (q3 : AsyncRequestQueue (List Entry)) × (request_wait list_hash 2 two_requests
        ≡ some (sleeps_on a, q1))
    × (request_complete list_hash a completed q1 ≡ some (true, q2))
    × (request_wake list_hash a true q2 ≡ some (success, q3))
    × (request_status list_hash 2 q3 ≡ some completed)
    × Holds list_hash q3
        (amend 2 (woken_up true) (amend 2 (complete_it completed) (amend 2 await_it two_slots)))
wait_complete_example =
    wait_complete list_hash list_hash-Laws 2 request_2 completed two_requests two_slots
      two_requests-Holds refl refl refl

cleanup_completed-sweep_example :
    (q' : AsyncRequestQueue (List Entry)) × (cleanup_completed list_hash 1060 two_requests
      ≡ some q')
    × Holds list_hash q' (sweep 1060 two_slots)
    × Swept list_hash list_hash-Laws 1060 two_slots two_requests q'
cleanup_completed-sweep_example =
    cleanup_completed-sweep list_hash list_hash-Laws 1060 two_slots two_requests two_requests-Holds

cancel-dangles_example :
    (q1 : AsyncRequestQueue (List Entry)) × (q2 : AsyncRequestQueue (List Entry)) × (request_cancel
        list_hash 1 two_requests
      ≡ some (true, q1))
    × (cleanup_completed list_hash 1010 q1 ≡ some q2)
    × (q2.requests 100 ≡ none)
    × (request_fetch list_hash q2 ≡ none)
cancel-dangles_example =
    cancel-dangles list_hash list_hash-Laws two_requests two_slots two_requests-Holds cell_5 []
      one_node-Holds refl refl (omega arith) 1 refl refl 1010

expired-elapsed_example :
    expired (cpu_start_in_msec 4294967340) (record request_1 { submit_time = 4294967290 })
    ≡ ((4294967290 / 2 ^ 32 == 4294967340 / 2 ^ 32) && leb 50 (4294967340 - 4294967290))
unfolding cpu_start_in_msec
expired-elapsed_example =
    expired-elapsed 4294967290 4294967340 (record request_1 { submit_time = 4294967290 }) refl refl
      (omega arith) (omega arith)

abbrev nothing_pending : AsyncRequestQueue (List Entry)
nothing_pending = record two_requests {
  pending_queue = record {
    queue = record { front = none; rear = none; size = 0; is_destroyed = false };
    heap = λ a. none;
  };
}

nothing_pending-Holds : Holds list_hash nothing_pending two_slots
nothing_pending-Holds = record {
  entries_at = refl;
  stored = (refl, (refl, tt));
  apart = ((omega arith, tt), (tt, tt));
  unique = ((omega arith, tt), (tt, tt));
  given = ((omega arith, omega arith), ((omega arith, omega arith), tt));
}

-- The last mutex is refused.
abbrev grants : RequestQueueGrants
grants = record {
  own_memory_ok = true;
  pending_grants = record { memory_ok = true; mutex_ok = true; cond_ok = true };
  id_mutex_ok = true;
  table_mutex_ok = false;
}
