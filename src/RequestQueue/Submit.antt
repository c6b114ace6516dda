-- ===== src/RequestQueue/Submit.antt =====
-- `async_request_submit` of common/request_que.c on a valid queue.
use my_common.Common.{
  ℕ, ◌+◌, ◌^◌, ◌≡◌, ◌≢◌, ◌<◌, ◌⊎◌, sym, ap, ◌∙◌, false, none, some, List, [], ◌∷◌, ◌++◌, map,
  map-append, length, All, All-append, Option-cases, inl, inr, arith,
}
use my_common.Common.Distinct.{DistinctBy-snoc}
use my_common.Common.Heap.{Heap, store, store-at}
use my_common.CommQue.{success, failure}
use my_common.ThreadSafeQueue.{Node, Store, Notice, signal_cond, enqueue}
use my_common.ThreadSafeQueue.Chain
use my_common.ThreadSafeQueue.Chain.{Cell}
use my_common.ThreadSafeQueue.Enqueue.{enqueue-cases}
use my_common.RequestQueue.{
  AsyncRequest, AsyncRequestQueue, Platform, new_request, create_request, id_after, insert_request,
  request_submit,
}
use my_common.RequestQueue.Table.{UtHash, Laws, without}
use my_common.RequestQueue.Slots.{Slot, entry, Holds, Stored-store}
use my_common.RequestQueue.Fresh.{id_after-suc, used, below, still_given, without-last}

module _ {T : Type 0} (hash : UtHash T) (laws : Laws hash) (env : Platform) (timeout_ms : ℕ) where
  abbrev pub fresh_slot : ℕ → ℕ → Slot
  fresh_slot a k = record { addr = a; request = new_request env timeout_ms k }

  module _ (q : AsyncRequestQueue T) (ss : List Slot) (v : Holds hash q ss) where
    -- The next id is given out, and the requests stay.
    skip-Holds :
        0 < q.next_id
        → q.next_id + 1 < 2 ^ 64
        → Holds hash (record q { next_id = id_after q.next_id }) ss
    skip-Holds pos room = record {
      entries_at = v.entries_at;
      stored = v.stored;
      apart = v.apart;
      unique = v.unique;
      given =
          still_given (q.next_id) (id_after (q.next_id)) ss (id_after-suc (q.next_id) room) v.given;
    }

    insert-Holds :
        (a : ℕ) (s : Store)
        → q.requests a ≡ none
        → 0 < q.next_id
        → q.next_id + 1 < 2 ^ 64
        → Holds hash
            (record {
              requests = store a (some (new_request env timeout_ms q.next_id)) q.requests;
              table = hash.add q.next_id a q.table;
              pending_queue = s;
              next_id = id_after q.next_id;
              is_destroyed = q.is_destroyed;
            })
            (ss ++ (fresh_slot a q.next_id ∷ []))
    insert-Holds a s free pos room = record {
      entries_at =
          laws.entries-add (q.next_id) a (q.table)
          ∙ ap (λ es. es ++ ((q.next_id, a) ∷ [])) v.entries_at
          ∙ sym split;
      stored =
          All-append
            (λ t.
              store a (some (new_request env timeout_ms q.next_id)) q.requests t.addr
              ≡ some t.request)
            ss (fresh_slot a (q.next_id) ∷ [])
            (Stored-store (q.requests) a (some (new_request env timeout_ms (q.next_id))) ss out
              v.stored)
            (store-at a (some (new_request env timeout_ms (q.next_id))) (q.requests), tt);
      apart = rw (split) (DistinctBy-snoc (λ e. e.1) (map entry ss) (q.next_id, a) out v.apart);
      unique = rw (split) (
          DistinctBy-snoc (λ e. e.0) (map entry ss) (q.next_id, a) (below (q.next_id) ss v.given)
            v.unique);
      given = rw (split) (
          All-append (λ e. (0 < e.0) × (e.0 < id_after q.next_id)) (map entry ss)
            ((q.next_id, a) ∷ []) (skip-Holds pos room).given
            ((pos, omega (arith, id_after-suc (q.next_id) room)), tt));
    }
      where
        out : All (λ e. e.1 ≢ a) (map entry ss)
        out = used (q.requests) a ss free v.stored

        split :
            map entry (ss ++ (fresh_slot a q.next_id ∷ [])) ≡ map entry ss ++ ((q.next_id, a) ∷ [])
        split = map-append entry ss (fresh_slot a (q.next_id) ∷ [])

    -- The insertion is undone.
    undo-Holds :
        (a : ℕ) (s : Store)
        → q.requests a ≡ none
        → 0 < q.next_id
        → q.next_id + 1 < 2 ^ 64
        → Holds hash
            (record {
              requests = store a none q.requests;
              table = hash.del a (hash.add q.next_id a q.table);
              pending_queue = s;
              next_id = id_after q.next_id;
              is_destroyed = q.is_destroyed;
            })
            ss
    undo-Holds a s free pos room = record {
      entries_at =
          laws.entries-del a (hash.add q.next_id a q.table)
          ∙ ap (without a) (
              laws.entries-add (q.next_id) a (q.table)
              ∙ ap (λ es. es ++ ((q.next_id, a) ∷ [])) v.entries_at)
          ∙ without-last (q.next_id) a (map entry ss) out;
      stored = Stored-store (q.requests) a none ss out v.stored;
      apart = v.apart;
      unique = v.unique;
      given = (skip-Holds pos room).given;
    }
      where
        out : All (λ e. e.1 ≢ a) (map entry ss)
        out = used (q.requests) a ss free v.stored

    insert-success :
        (a : ℕ) (s : Store) (notices : List Notice)
        → enqueue env.malloc_node (some a) 8 q.pending_queue ≡ some (success, notices, s)
        → q.is_destroyed ≡ false
        → create_request env q.requests ≡ some a
        → request_submit hash env timeout_ms q
          ≡ some (
            q.next_id,
            record {
              requests = store a (some (new_request env timeout_ms q.next_id)) q.requests;
              table = hash.add q.next_id a q.table;
              pending_queue = s;
              next_id = id_after q.next_id;
              is_destroyed = q.is_destroyed;
            },
          )
    unfolding request_submit insert_request
    insert-success a s notices e live ec = ground (arith, e, live, ec)

    insert-failure :
        (a : ℕ) (s : Store) (notices : List Notice)
        → enqueue env.malloc_node (some a) 8 q.pending_queue ≡ some (failure, notices, s)
        → q.is_destroyed ≡ false
        → create_request env q.requests ≡ some a
        → request_submit hash env timeout_ms q
          ≡ some (
            0,
            record {
              requests = store a none q.requests;
              table = hash.del a (hash.add q.next_id a q.table);
              pending_queue = s;
              next_id = id_after q.next_id;
              is_destroyed = q.is_destroyed;
            },
          )
    unfolding request_submit insert_request
    insert-failure a s notices e live ec = ground (arith, e, live, ec)

    create-none :
        q.is_destroyed ≡ false
        → create_request env q.requests ≡ none
        → request_submit hash env timeout_ms q ≡ some (0, record q { next_id = id_after q.next_id })
    unfolding request_submit
    create-none live ec = ground (arith, live, ec)

    create-unused :
        ((h : Heap AsyncRequest) (a : ℕ) → env.malloc_request h ≡ some a → h a ≡ none)
        → (a : ℕ) → create_request env q.requests ≡ some a
        → q.requests a ≡ none
    unfolding create_request
    create-unused fresh a e = fresh (q.requests) a (ground (arith, e))

    -- A request under a new id, last in the table and last in the pending queue.
    abbrev pub Accepted : List Cell → Type 0
    Accepted cs =
        (q' : AsyncRequestQueue T) × (a : ℕ) × (b : ℕ) × (request_submit hash env timeout_ms q
          ≡ some (q.next_id, q'))
        × Holds hash q' (ss ++ (fresh_slot a q.next_id ∷ []))
        × Chain.Holds q'.pending_queue
            (cs ++ (record { addr = b; data_ptr = a; data_size = 8 } ∷ []))

    -- Id 0, and the requests and the pending queue as before, since the request or the node could not
    -- be had.
    abbrev pub Refused : List Cell → Type 0
    Refused cs =
        (q' : AsyncRequestQueue T) × (request_submit hash env timeout_ms q ≡ some (0, q'))
        × Holds hash q' ss
        × Chain.Holds q'.pending_queue cs
        × ((create_request env q.requests ≡ none) ⊎ (env.malloc_node q.pending_queue.heap ≡ none))

    -- A submission on a live valid queue appends a new pending request under the next id,
    -- which no request has, to the table and to the pending queue, or, when the request or
    -- the node cannot be had, returns 0 and leaves both as they were, if the allocators give
    -- unused addresses, the table keeps the laws of uthash, and no counter reaches 2^64.
    pub request_submit-Holds :
        (cs : List Cell)
        → Chain.Holds q.pending_queue cs
        → ((h : Heap AsyncRequest) (a : ℕ) → env.malloc_request h ≡ some a → h a ≡ none)
        → ((h : Heap Node) (a : ℕ) → env.malloc_node h ≡ some a → h a ≡ none)
        → q.is_destroyed ≡ false
        → q.pending_queue.queue.is_destroyed ≡ false
        → 0 < q.next_id
        → q.next_id + 1 < 2 ^ 64
        → length cs + 1 < 2 ^ 64
        → All (λ e. e.0 ≢ q.next_id) (map entry ss) × (Accepted cs ⊎ Refused cs)
    request_submit-Holds cs vp fr fn live livep pos room roomp = (
      below (q.next_id) ss v.given,
      elim (Option-cases (create_request env (q.requests))) [
        | inl e ↦ inr (
          record q { next_id = id_after q.next_id },
          create-none live e,
          skip-Holds pos room,
          vp,
          inl e,
        )
        | inr (a, e) ↦
            let free = create-unused fr a e in
            elim (enqueue-cases env.malloc_node fn a 8 (q.pending_queue) cs vp livep (omega arith)
              roomp) [
                | inl (b, s, ee, vs, es) ↦ inl (
                  record {
                    requests = store a (some (new_request env timeout_ms q.next_id)) q.requests;
                    table = hash.add q.next_id a q.table;
                    pending_queue = s;
                    next_id = id_after q.next_id;
                    is_destroyed = q.is_destroyed;
                  },
                  a,
                  b,
                  insert-success a s (signal_cond ∷ []) ee live e,
                  insert-Holds a s free pos room,
                  vs,
                )
                | inr (ee, em) ↦ inr (
                  record {
                    requests = store a none q.requests;
                    table = hash.del a (hash.add q.next_id a q.table);
                    pending_queue = q.pending_queue;
                    next_id = id_after q.next_id;
                    is_destroyed = q.is_destroyed;
                  },
                  insert-failure a (q.pending_queue) [] ee live e,
                  undo-Holds a (q.pending_queue) free pos room,
                  vp,
                  inr em,
                )
              ]
      ],
    )
