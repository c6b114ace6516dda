-- ===== src/RequestQueue/Dangling.antt =====
-- `async_request_fetch` of common/request_que.c, and what it does with a request that was cancelled:
-- a cancel leaves the request in the pending queue.
use my_common.Common.{
  ℕ, ◌+◌, ◌^◌, ◌≡◌, ◌<◌, refl, sym, ap, ◌∙◌, subst, Bool, true, false, none, some, List, [], ◌∷◌,
  map, length, All, inl, inr, arith, ◌==◌, if◌then◌else◌,
}
use my_common.Common.Heap.{Heap, store}
use my_common.CommQue.{forever}
use my_common.ThreadSafeQueue.{Store, dequeued, dequeue}
use my_common.ThreadSafeQueue.Chain
use my_common.ThreadSafeQueue.Chain.{Cell}
use my_common.ThreadSafeQueue.Dequeue.{item, unlink-Holds}
use my_common.RequestQueue.{
  processing, AsyncRequest, AsyncRequestQueue, is_pending, update_request, request_fetch,
  request_cancel, request_status, cleanup_completed,
}
use my_common.RequestQueue.Table.{UtHash, Laws, lookup}
use my_common.RequestQueue.Slots.{
  Slot, entry, amend, Holds, lookup-cases, request_of-amend, entry-amend, lookup-some,
}
use my_common.RequestQueue.Calls.{
  cancel_it, status_of, status_in, amend-Holds, request_status-status_in, request_cancel-Holds,
}
use my_common.RequestQueue.Cleanup.{cleanup_completed-sweep}

abbrev pub process_it : AsyncRequest → AsyncRequest
process_it r = record r { status = processing }

dequeue-front :
    (c : Cell) (cs : List Cell) (s : Store)
    → Chain.Holds s (c ∷ cs)
    → s.queue.is_destroyed ≡ false
    → length cs + 1 < 2 ^ 64
    → (s' : Store) × (dequeue forever [] s ≡ some (dequeued (some (item c)) s')) × Chain.Holds s' cs
unfolding dequeue
dequeue-front c cs s v live room =
    let (s', e, v', d) = unlink-Holds s c cs v live room in
    (s', ground (arith, v.size_at, live, e), v')

module _ {T : Type 0} (hash : UtHash T) (laws : Laws hash) where
  fetch-some :
      (c : Cell) (r : AsyncRequest) (s : Store) (q : AsyncRequestQueue T)
      → q.is_destroyed ≡ false
      → dequeue forever [] q.pending_queue ≡ some (dequeued (some (item c)) s)
      → q.requests c.data_ptr ≡ some r
      → request_fetch hash q
        ≡ some (
          some c.data_ptr,
          record q {
            pending_queue = s;
            requests = store c.data_ptr (some (process_it r)) q.requests;
          },
        )
  unfolding request_fetch update_request
  fetch-some c r s q live e er = ground (arith, live, e, er)

  fetch-none :
      (c : Cell) (s : Store) (q : AsyncRequestQueue T)
      → q.is_destroyed ≡ false
      → dequeue forever [] q.pending_queue ≡ some (dequeued (some (item c)) s)
      → q.requests c.data_ptr ≡ none
      → request_fetch hash q ≡ none
  unfolding request_fetch update_request
  fetch-none c s q live e er = ground (arith, live, e, er)

  module _ (q : AsyncRequestQueue T) (ss : List Slot) (v : Holds hash q ss) (c : Cell)
      (cs : List Cell) (vp : Chain.Holds q.pending_queue (c ∷ cs)) (live : q.is_destroyed ≡ false)
      (livep : q.pending_queue.queue.is_destroyed ≡ false) (room : length cs + 1 < 2 ^ 64) (k : ℕ)
      (found : lookup k (map entry ss) ≡ some c.data_ptr) where
    -- A fetch on a live valid queue whose first pending request is in the table gives that request,
    -- as PROCESSING, takes it out of the pending queue, and changes nothing else.
    pub request_fetch-Holds :
        (q' : AsyncRequestQueue T) × (request_fetch hash q ≡ some (some c.data_ptr, q'))
        × Holds hash q' (amend k process_it ss)
        × Chain.Holds q'.pending_queue cs
    request_fetch-Holds =
        let (s, e, vs) = dequeue-front c cs (q.pending_queue) vp livep room in
        let (r, er, ef, ei) = lookup-some k (c.data_ptr) (q.requests) ss v.stored found in
        let w = amend-Holds hash laws q ss v k (c.data_ptr) r process_it (λ x. refl) found er in
        (
          record q {
            pending_queue = s;
            requests = store c.data_ptr (some (process_it r)) q.requests;
          },
          fetch-some c r s q live e er,
          record {
            entries_at = w.entries_at;
            stored = w.stored;
            apart = w.apart;
            unique = w.unique;
            given = w.given;
          },
          vs,
        )

-- The requests that a cleanup frees include the one that was cancelled.
cancelled-gone :
    (k a : ℕ) (h : Heap AsyncRequest) (ss : List Slot)
    → lookup k (map entry ss) ≡ some a
    → All (λ s. s.request.need_free ≡ true → h s.addr ≡ none) (amend k cancel_it ss)
    → h a ≡ none
cancelled-gone k a h [] e g = absurd (ground (arith, e))
cancelled-gone k a h (s ∷ ss) e g = elim (lookup-cases k a s ss e) [
  | inl (b, ei, ea) ↦ subst (λ x. h x ≡ none) ea ((by_test b).0 refl)
  | inr (b, e') ↦ cancelled-gone k a h ss e' (by_test b).1
]
  where
    by_test :
        {t : Bool}
        → (s.request.id == k) ≡ t
        → All
            (λ x. x.request.need_free ≡ true → h x.addr ≡ none)
            (if t
              then record s { request = cancel_it s.request } ∷ amend k cancel_it ss
              else s ∷ amend k cancel_it ss)
    by_test b =
        subst
          (λ t.
            All (λ x. x.request.need_free ≡ true → h x.addr ≡ none)
              (if t
                then record s { request = cancel_it s.request } ∷ amend k cancel_it ss
                else s ∷ amend k cancel_it ss))
          b g

module _ {T : Type 0} (hash : UtHash T) (laws : Laws hash) where
  module _ (q : AsyncRequestQueue T) (ss : List Slot) (v : Holds hash q ss) (c : Cell)
      (cs : List Cell) (vp : Chain.Holds q.pending_queue (c ∷ cs)) (live : q.is_destroyed ≡ false)
      (livep : q.pending_queue.queue.is_destroyed ≡ false) (room : length cs + 1 < 2 ^ 64) (k : ℕ)
      (found : lookup k (map entry ss) ≡ some c.data_ptr)
      (waits : is_pending (status_in k ss) ≡ true) where
    -- The queue behind the cancel.
    cancelled_queue :
        (q1 : AsyncRequestQueue T) × (request_cancel hash k q ≡ some (true, q1))
        × Holds hash q1 (amend k cancel_it ss)
        × Chain.Holds q1.pending_queue (c ∷ cs)
        × (q1.is_destroyed ≡ false)
        × (q1.pending_queue.queue.is_destroyed ≡ false)
    cancelled_queue =
        let (q1, e, v1, ep, el) = request_cancel-Holds hash laws q ss v k live in
        (
          q1,
          e ∙ ap (λ b. some (b, q1)) waits,
          subst (λ b. Holds hash q1 (if b then amend k cancel_it ss else ss)) waits v1,
          subst (λ s. Chain.Holds s (c ∷ cs)) (sym ep) vp,
          el ∙ live,
          ap (λ s. s.queue.is_destroyed) ep ∙ livep,
        )

    -- A cancel of the first pending request of a live valid queue succeeds, but the next
    -- fetch hands that request out all the same, and its status is then PROCESSING, if the
    -- table keeps the laws of uthash.
    pub cancel-fetched :
        (q1 : AsyncRequestQueue T) × (q2 : AsyncRequestQueue T) × (request_cancel hash k q
          ≡ some (true, q1))
        × (request_fetch hash q1 ≡ some (some c.data_ptr, q2))
        × (request_status hash k q2 ≡ some processing)
    cancel-fetched =
        let (q1, e1, v1, vp1, l1, lp1) = cancelled_queue in
        let (q2, e2, v2, vp2) =
          request_fetch-Holds hash laws q1 (amend k cancel_it ss) v1 c cs vp1 l1 lp1 room k
            (ap (lookup k) (entry-amend k cancel_it ss (λ x. refl)) ∙ found) in
        let (r, er, ef, ei) = lookup-some k (c.data_ptr) (q.requests) ss v.stored found in
        (
          q1,
          q2,
          e1,
          e2,
          request_status-status_in hash laws q2 (amend k process_it (amend k cancel_it ss)) v2 k
              ∙ ap (λ o. some (status_of o))
                  (request_of-amend k process_it (cancel_it r) (amend k cancel_it ss) (λ x. refl)
                    (request_of-amend k cancel_it r ss (λ x. refl) ef)),
        )

    -- A cancel of the first pending request of a live valid queue succeeds, the next cleanup
    -- frees that request, and the fetch behind it uses the freed request, if the table keeps
    -- the laws of uthash.
    pub cancel-dangles :
        (now : ℕ)
        → (q1 : AsyncRequestQueue T) × (q2 : AsyncRequestQueue T) × (request_cancel hash k q
            ≡ some (true, q1))
          × (cleanup_completed hash now q1 ≡ some q2)
          × (q2.requests c.data_ptr ≡ none)
          × (request_fetch hash q2 ≡ none)
    cancel-dangles now =
        let (q1, e1, v1, vp1, l1, lp1) = cancelled_queue in
        let (q2, e2, v2, w) = cleanup_completed-sweep hash laws now (amend k cancel_it ss) q1 v1 in
        let (s, ed, vs) =
          dequeue-front c cs (q2.pending_queue)
            (subst (λ s. Chain.Holds s (c ∷ cs)) (sym w.pending_at) vp1)
            (ap (λ s. s.queue.is_destroyed) w.pending_at ∙ lp1) room in
        let gone = cancelled-gone k (c.data_ptr) (q2.requests) ss found w.gone in
        (q1, q2, e1, e2, gone, fetch-none hash laws c s q2 (w.live_at ∙ l1) ed gone)
