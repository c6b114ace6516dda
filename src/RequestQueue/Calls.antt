-- ===== src/RequestQueue/Calls.antt =====
-- Cancel, wait, complete, fetch and the status query of common/request_que.c on the requests of a
-- valid queue.
use my_common.Common.{
  ℕ, ◌≡◌, ◌<◌, refl, sym, ap, ◌∙◌, subst, true, false, Option, none, some, List, map, All,
  Bool-cases, ◌⊎◌, Option-cases, inl, inr, arith, if◌then◌else◌,
}
use my_common.Common.Heap.{Heap, store}
use my_common.CommQue.{success, failure}
use my_common.RequestQueue.{
  RequestStatus, failed, cancelled, AsyncRequest, AsyncRequestQueue, is_pending, is_done, WaitStart,
  answered, sleeps_on, request_cancel, request_wait, request_status,
}
use my_common.RequestQueue.Table.{UtHash, Laws, lookup, UniqueKeys}
use my_common.RequestQueue.Slots.{
  Slot, entry, Apart, request_of, amend, KeepsId, Holds, entry-amend, lookup-none, lookup-some,
  Stored-amend,
}

abbrev pub cancel_it : AsyncRequest → AsyncRequest
cancel_it r = record r { status = cancelled; need_free = true }

abbrev pub release_it : AsyncRequest → AsyncRequest
release_it r = record r { need_free = true }

abbrev pub await_it : AsyncRequest → AsyncRequest
await_it r = record r { is_waiting = true }

-- What a status query answers.
abbrev pub status_of : Option AsyncRequest → RequestStatus
status_of none = failed
status_of (some r) = r.status

abbrev pub status_in : ℕ → List Slot → RequestStatus
status_in k ss = status_of (request_of k ss)

abbrev pub cancel_in : ℕ → List Slot → List Slot
cancel_in k ss = if is_pending (status_of (request_of k ss)) then amend k cancel_it ss else ss

abbrev pub wait_found : Option AsyncRequest → ℕ → List Slot → List Slot
wait_found none k ss = ss
wait_found (some r) k ss = if is_done r.status then amend k release_it ss else amend k await_it ss

abbrev pub wait_in : ℕ → List Slot → List Slot
wait_in k ss = wait_found (request_of k ss) k ss

-- How a wait starts: with -1, with 0, or asleep on the request that it found.
abbrev pub StartsAt : Heap AsyncRequest → Option AsyncRequest → WaitStart → Type 0
StartsAt h none start = start ≡ answered failure
StartsAt h (some r) start =
    if is_done r.status
    then start ≡ answered success
    else (a : ℕ) × (start ≡ sleeps_on a) × (h a ≡ some r)

module _ {T : Type 0} (hash : UtHash T) (laws : Laws hash) where
  module _ (q : AsyncRequestQueue T) (ss : List Slot) (v : Holds hash q ss) where
    find-entry : (k : ℕ) → hash.find k q.table ≡ lookup k (map entry ss)
    find-entry k =
        laws.find-lookup k (q.table) (subst UniqueKeys (sym v.entries_at) v.unique)
        ∙ ap (lookup k) v.entries_at

    -- Either no request has the id, or the table finds the one that has it.
    pub find-cases :
        (k : ℕ)
        → (hash.find k q.table ≡ none) × (request_of k ss ≡ none)
          ⊎ ((a : ℕ) × (r : AsyncRequest) × (hash.find k q.table ≡ some a)
              × (lookup k (map entry ss) ≡ some a)
              × (q.requests a ≡ some r)
              × (request_of k ss ≡ some r)
              × (r.id ≡ k))
    find-cases k = elim (Option-cases (lookup k (map entry ss))) [
      | inl e ↦ inl (find-entry k ∙ e, lookup-none k ss e)
      | inr (a, e) ↦
          let (r, er, ef, ei) = lookup-some k a (q.requests) ss v.stored e in
          inr (a, r, find-entry k ∙ e, e, er, ef, ei)
    ]

    -- The request that the table finds is changed in memory.
    pub amend-Holds :
        (k a : ℕ) (r : AsyncRequest) (f : AsyncRequest → AsyncRequest)
        → KeepsId f
        → lookup k (map entry ss) ≡ some a
        → q.requests a ≡ some r
        → Holds hash (record q { requests = store a (some (f r)) q.requests }) (amend k f ss)
    amend-Holds k a r f keeps e er = record {
      entries_at = v.entries_at ∙ sym (entry-amend k f ss keeps);
      stored = Stored-amend k a (q.requests) r f ss v.stored v.apart v.unique e er;
      apart = subst Apart (sym (entry-amend k f ss keeps)) v.apart;
      unique = subst UniqueKeys (sym (entry-amend k f ss keeps)) v.unique;
      given =
          subst (All (λ e'. (0 < e'.0) × (e'.0 < q.next_id))) (sym (entry-amend k f ss keeps))
            v.given;
    }

    -- The status query gives the status of the request with the id, and FAILED when there is none.
    pub request_status-status_in : (k : ℕ) → request_status hash k q ≡ some (status_in k ss)
    unfolding request_status
    request_status-status_in k = elim (find-cases k) [
      | inl (e, ef) ↦ ground (arith, e, ef)
      | inr (a, r, e, el, er, ef, ei) ↦ ground (arith, e, er, ef)
    ]

    -- On a live valid queue a cancel succeeds exactly for a request that is pending; it is
    -- then CANCELLED and to be freed, and nothing else changes, the pending queue included,
    -- if the table keeps the laws of uthash.
    pub request_cancel-Holds :
        (k : ℕ)
        → q.is_destroyed ≡ false
        → (q' : AsyncRequestQueue T) × (request_cancel hash k q
            ≡ some (is_pending (status_in k ss), q'))
          × Holds hash q' (cancel_in k ss)
          × (q'.pending_queue ≡ q.pending_queue)
          × (q'.is_destroyed ≡ q.is_destroyed)
    unfolding request_cancel
    request_cancel-Holds k live = elim (find-cases k) [
      | inl (e, ef) ↦ (q, ground (arith, live, e, ef), rw (ef) v, refl, refl)
      | inr (a, r, e, el, er, ef, ei) ↦ elim (Bool-cases (is_pending (r.status))) [
        | inl p ↦ (
          record q { requests = store a (some (cancel_it r)) q.requests },
          ground (arith, live, e, er, ef, p),
          rw (ef, p) (amend-Holds k a r cancel_it (λ x. refl) el er),
          refl,
          refl,
        )
        | inr p ↦ (q, ground (arith, live, e, er, ef, p), rw (ef, p) v, refl, refl)
      ]
    ]

    -- On a live valid queue a wait answers -1 at once for an unknown id, and 0 at once for a request
    -- that is done, which is then to be freed; for any other it sleeps on that request, marked as
    -- waited for.
    pub request_wait-Holds :
        (k : ℕ)
        → q.is_destroyed ≡ false
        → (q' : AsyncRequestQueue T) × (start : WaitStart) × (request_wait hash k q
            ≡ some (start, q'))
          × StartsAt q.requests (request_of k ss) start
          × Holds hash q' (wait_in k ss)
    unfolding request_wait
    request_wait-Holds k live = elim (find-cases k) [
      | inl (e, ef) ↦ (q, answered failure, ground (arith, live, e), rw (ef) refl, rw (ef) v)
      | inr (a, r, e, el, er, ef, ei) ↦ elim (Bool-cases (is_done (r.status))) [
        | inl p ↦ (
          record q { requests = store a (some (release_it r)) q.requests },
          answered success,
          ground (arith, live, e, er, p),
          rw (ef, p) refl,
          rw (ef, p) (amend-Holds k a r release_it (λ x. refl) el er),
        )
        | inr p ↦ (
          record q { requests = store a (some (await_it r)) q.requests },
          sleeps_on a,
          ground (arith, live, e, er, p),
          rw (ef, p) (a, refl, er),
          rw (ef, p) (amend-Holds k a r await_it (λ x. refl) el er),
        )
      ]
    ]
