-- ===== src/RequestQueue/Complete.antt =====
-- The hand-shake of common/request_que.c between a thread that waits for a request and the thread
-- that completes it.
use my_common.Common.{
  ℕ, ◌≡◌, refl, sym, ap, ◌∙◌, subst, true, false, some, List, map, inl, inr, arith,
}
use my_common.Common.Heap.{store, store-at}
use my_common.CommQue.{success}
use my_common.RequestQueue.{
  RequestStatus, AsyncRequest, AsyncRequestQueue, is_done, sleeps_on, update_request,
  request_complete, request_wait, woken_up, request_wake, request_status,
}
use my_common.RequestQueue.Table.{UtHash, Laws, lookup}
use my_common.RequestQueue.Slots.{
  Slot, entry, request_of, amend, KeepsId, Holds, entry-amend, lookup-some, request_of-amend,
}
use my_common.RequestQueue.Calls.{
  await_it, status_of, find-cases, amend-Holds, request_status-status_in,
}

abbrev pub complete_it : RequestStatus → AsyncRequest → AsyncRequest
complete_it status r = record r { status = status }

module _ {T : Type 0} (hash : UtHash T) (laws : Laws hash) (k a : ℕ) where
  -- A change of the request at an address of the table.
  update-Holds :
      (f : AsyncRequest → AsyncRequest)
      → KeepsId f
      → (q : AsyncRequestQueue T) (ss : List Slot) → Holds hash q ss
      → lookup k (map entry ss) ≡ some a
      → (q' : AsyncRequestQueue T) × (update_request hash a f q ≡ some q')
        × Holds hash q' (amend k f ss)
        × (q'.is_destroyed ≡ q.is_destroyed)
        × (lookup k (map entry (amend k f ss)) ≡ some a)
  unfolding update_request
  update-Holds f keeps q ss v found =
      let (r, er, ef, ei) = lookup-some k a (q.requests) ss v.stored found in
      (
        record q { requests = store a (some (f r)) q.requests },
        ground (arith, er),
        amend-Holds hash laws q ss v k a r f keeps found er,
        refl,
        ap (lookup k) (entry-amend k f ss keeps) ∙ found,
      )

  -- A completion of a request that a thread waits for.
  complete-signals :
      (status : RequestStatus) (r : AsyncRequest) (q q' : AsyncRequestQueue T)
      → q.is_destroyed ≡ false
      → q.requests a ≡ some r
      → r.is_waiting ≡ true
      → update_request hash a (complete_it status) q ≡ some q'
      → request_complete hash a status q ≡ some (true, q')
  unfolding request_complete update_request
  complete-signals status r q q' live e waits done = ground (arith, live, e, waits, done)

  wake-signalled :
      (q q' : AsyncRequestQueue T)
      → update_request hash a (woken_up true) q ≡ some q'
      → request_wake hash a true q ≡ some (success, q')
  unfolding request_wake
  wake-signalled q q' e = ground (arith, e)

module _ {T : Type 0} (hash : UtHash T) (laws : Laws hash) where
  wait-sleeps :
      (k a : ℕ) (r : AsyncRequest) (q : AsyncRequestQueue T)
      → q.is_destroyed ≡ false
      → hash.find k q.table ≡ some a
      → q.requests a ≡ some r
      → is_done r.status ≡ false
      → request_wait hash k q
        ≡ some (sleeps_on a, record q { requests = store a (some (await_it r)) q.requests })
  unfolding request_wait
  wait-sleeps k a r q live e er d = ground (arith, live, e, er, d)

  -- On a live valid queue a wait for a request that is not done sleeps on it; when another
  -- thread then completes that request, it signals the condition variable of the wait, and the
  -- wait that this wakes returns 0, the request has the status that it was completed with, and
  -- the queue is valid, if the table keeps the laws of uthash.
  pub wait_complete :
      (k : ℕ) (r : AsyncRequest) (status : RequestStatus) (q : AsyncRequestQueue T) (ss : List Slot)
      → Holds hash q ss
      → q.is_destroyed ≡ false
      → request_of k ss ≡ some r
      → is_done r.status ≡ false
      → (a : ℕ) × (q1 : AsyncRequestQueue T) × (q2 : AsyncRequestQueue T) × (q3 : AsyncRequestQueue
          T)
        × (request_wait hash k q ≡ some (sleeps_on a, q1))
        × (request_complete hash a status q1 ≡ some (true, q2))
        × (request_wake hash a true q2 ≡ some (success, q3))
        × (request_status hash k q3 ≡ some status)
        × Holds hash q3
            (amend k (woken_up true) (amend k (complete_it status) (amend k await_it ss)))
  wait_complete k r status q ss v live found d = elim (find-cases hash laws q ss v k) [
    | inl (e, ef) ↦ absurd (ground (arith, ef, found))
    | inr (a, r', e, el, er, ef, ei) ↦
        let q1 : AsyncRequestQueue T = record q {
          requests = store a (some (await_it r')) q.requests;
        } in
        let v1 = amend-Holds hash laws q ss v k a r' await_it (λ x. refl) el er in
        let l1 = ap (lookup k) (entry-amend k await_it ss (λ x. refl)) ∙ el in
        let (q2, e2, v2, d2, l2) =
          update-Holds hash laws k a (complete_it status) (λ x. refl) q1 (amend k await_it ss) v1
            l1 in
        let (q3, e3, v3, d3, l3) =
          update-Holds hash laws k a (woken_up true) (λ x. refl) q2
            (amend k (complete_it status) (amend k await_it ss)) v2 l2 in
        (
          a,
          q1,
          q2,
          q3,
          wait-sleeps k a r' q live e er
              (subst (λ o. is_done (status_of o) ≡ false) (sym found ∙ ef) d),
          complete-signals hash laws k a status (await_it r') q1 q2 live
              (store-at a (some (await_it r')) (q.requests)) refl e2,
          wake-signalled hash laws k a q2 q3 e3,
          request_status-status_in hash laws q3
                (amend k (woken_up true) (amend k (complete_it status) (amend k await_it ss))) v3 k
              ∙ ap (λ o. some (status_of o)) (last_request r' ef),
          v3,
        )
  ]
    where
      last_request :
          (r' : AsyncRequest)
          → request_of k ss ≡ some r'
          → request_of k
              (amend k (woken_up true) (amend k (complete_it status) (amend k await_it ss)))
            ≡ some (woken_up true (complete_it status (await_it r')))
      last_request r' ef =
          request_of-amend k (woken_up true) (complete_it status (await_it r'))
            (amend k (complete_it status) (amend k await_it ss)) (λ x. refl)
            (request_of-amend k (complete_it status) (await_it r') (amend k await_it ss) (λ x. refl)
              (request_of-amend k await_it r' ss (λ x. refl) ef))
