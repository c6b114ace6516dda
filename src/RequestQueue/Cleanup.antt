-- ===== src/RequestQueue/Cleanup.antt =====
-- `async_request_cleanup_completed` of common/request_que.c on a valid queue.
use my_common.Common.{
  ℕ, ◌≡◌, ◌≢◌, ◌<◌, refl, sym, ap, ◌∙◌, subst, true, false, ◌&&◌, Option, none, some, List, [], ◌∷◌,
  ◌++◌, map, map-append, All, All-append, All-left, All-right, All-without, Bool-cases, ◌⊎◌, inl,
  inr, arith,
}
use mathlib.Core.List.{append_assoc}
use my_common.Common.Distinct.{DistinctBy-middle, DistinctBy-without}
use my_common.Common.Heap.{store, store-at, store-off}
use my_common.RequestQueue.{
  AsyncRequest, AsyncRequestQueue, is_pending, expired, clean_at, clean_from, cleanup_completed,
}
use my_common.RequestQueue.Table.{Entry, UtHash, Laws, without, UniqueKeys}
use my_common.RequestQueue.Slots.{Slot, entry, Apart, Holds, Stored-store}
use my_common.RequestQueue.Sweep.{
  time_out, sweep, without-middle, sweep_freed, sweep_timed_out, sweep_kept,
}

module _ {T : Type 0} (hash : UtHash T) (laws : Laws hash) (now : ℕ) where
  module _ (q : AsyncRequestQueue T) (ks : List Slot) (s : Slot) (ss : List Slot)
      (v : Holds hash q (ks ++ (s ∷ ss))) where
    split : map entry (ks ++ (s ∷ ss)) ≡ map entry ks ++ (entry s ∷ map entry ss)
    split = map-append entry ks (s ∷ ss)

    -- The other requests are at other addresses.
    elsewhere : All (λ e. e.1 ≢ s.addr) (map entry ks ++ map entry ss)
    elsewhere =
        DistinctBy-middle (λ e. e.1) (map entry ks) (entry s) (map entry ss)
          (subst Apart split v.apart)

    -- The request is deleted and freed.
    freed-Holds :
        Holds hash
          (record q { table = hash.del s.addr q.table; requests = store s.addr none q.requests })
          (ks ++ ss)
    freed-Holds = record {
      entries_at =
          laws.entries-del (s.addr) (q.table)
          ∙ ap (without s.addr) (v.entries_at ∙ split)
          ∙ without-middle (s.addr) (s.request.id) (map entry ks) (map entry ss) elsewhere
          ∙ sym joined;
      stored =
          Stored-store (q.requests) (s.addr) none (ks ++ ss) (rw (joined) elsewhere)
            (All-without (λ t. q.requests t.addr ≡ some t.request) ks s ss v.stored);
      apart = rw (joined) (
          DistinctBy-without (λ e. e.1) (map entry ks) (entry s) (map entry ss)
            (subst Apart split v.apart));
      unique = rw (joined) (
          DistinctBy-without (λ e. e.0) (map entry ks) (entry s) (map entry ss)
            (subst UniqueKeys split v.unique));
      given = rw (joined) (
          All-without (λ e. (0 < e.0) × (e.0 < q.next_id)) (map entry ks) (entry s) (map entry ss)
            (subst (All (λ e. (0 < e.0) × (e.0 < q.next_id))) split v.given));
    }
      where
        joined : map entry (ks ++ ss) ≡ map entry ks ++ map entry ss
        joined = map-append entry ks ss

    -- The request's time is over.
    timed_out-Holds :
        Holds hash
          (record q { requests = store s.addr (some (time_out s.request)) q.requests })
          (ks ++ (record s { request = time_out s.request } ∷ ss))
    timed_out-Holds = record {
      entries_at = v.entries_at ∙ same;
      stored =
          All-append
            (λ t. store s.addr (some (time_out s.request)) q.requests t.addr ≡ some t.request) ks
            (record s { request = time_out s.request } ∷ ss)
            (Stored-store (q.requests) (s.addr) (some (time_out (s.request))) ks
              (All-left (λ e. e.1 ≢ s.addr) (map entry ks) (map entry ss) elsewhere)
              (All-left (λ t. q.requests t.addr ≡ some t.request) ks (s ∷ ss) v.stored))
            (
              store-at (s.addr) (some (time_out (s.request))) (q.requests),
              Stored-store (q.requests) (s.addr) (some (time_out (s.request))) ss
                  (All-right (λ e. e.1 ≢ s.addr) (map entry ks) (map entry ss) elsewhere)
                  (All-right (λ t. q.requests t.addr ≡ some t.request) ks (s ∷ ss) v.stored).1,
            );
      apart = subst Apart same v.apart;
      unique = subst UniqueKeys same v.unique;
      given = subst (All (λ e. (0 < e.0) × (e.0 < q.next_id))) same v.given;
    }
      where
        same :
            map entry (ks ++ (s ∷ ss))
            ≡ map entry (ks ++ (record s { request = time_out s.request } ∷ ss))
        same = split ∙ sym (map-append entry ks (record s { request = time_out s.request } ∷ ss))

  clean_from-some :
      (k a : ℕ) (es : List Entry) (r : AsyncRequest) (q : AsyncRequestQueue T)
      → q.requests a ≡ some r
      → clean_from hash now ((k, a) ∷ es) q ≡ clean_from hash now es (clean_at hash now a r q)
  unfolding clean_from
  clean_from-some k a es r q e = ground (arith, e)

  -- The three courses of a round.
  clean_at-cases :
      (a : ℕ) (r : AsyncRequest) (q : AsyncRequestQueue T)
      → (r.need_free ≡ true)
          × (clean_at hash now a r q
              ≡ record q { table = hash.del a q.table; requests = store a none q.requests })
        ⊎ (r.need_free ≡ false)
          × ((is_pending r.status && expired now r) ≡ true)
          × (clean_at hash now a r q
              ≡ record q { requests = store a (some (time_out r)) q.requests })
        ⊎ (r.need_free ≡ false)
          × ((is_pending r.status && expired now r) ≡ false)
          × (clean_at hash now a r q ≡ q)
  unfolding clean_at
  clean_at-cases a r q = elim (Bool-cases (r.need_free)) [
    | inl e ↦ inl (e, rw (e) refl)
    | inr e ↦ elim (Bool-cases (is_pending (r.status) && expired now r)) [
      | inl p ↦ inr (inl (e, p, rw (e, p) refl))
      | inr p ↦ inr (inr (e, p, rw (e, p) refl))
    ]
  ]

  -- What the memory of the requests is behind the loop: those to be freed are gone, and other
  -- addresses are as they were.
  pub record Swept (ss : List Slot) (q q' : AsyncRequestQueue T) : Type 0 where
    pub gone : All (λ s. s.request.need_free ≡ true → q'.requests s.addr ≡ none) ss
    pub kept : (a : ℕ) → All (λ e. e.1 ≢ a) (map entry ss) → q'.requests a ≡ q.requests a
    pub pending_at : q'.pending_queue ≡ q.pending_queue
    pub live_at : q'.is_destroyed ≡ q.is_destroyed

  Cleans : List Slot → List Slot → AsyncRequestQueue T → Type 0
  Cleans ks ss q =
      (q' : AsyncRequestQueue T) × (clean_from hash now (map entry ss) q ≡ some q')
      × Holds hash q' (ks ++ sweep now ss)
      × Swept ss q q'

  -- Behind the round at `s`, which left `v` at its address.
  Swept-cons :
      (s : Slot) (ss : List Slot) (v : Option AsyncRequest) (t : T) (q q' : AsyncRequestQueue T)
      → All (λ e. e.1 ≢ s.addr) (map entry ss)
      → (s.request.need_free ≡ true → v ≡ none)
      → Swept ss (record q { table = t; requests = store s.addr v q.requests }) q'
      → Swept (s ∷ ss) q q'
  Swept-cons s ss v t q q' out ev w = record {
    gone = (λ e. w.kept (s.addr) out ∙ store-at (s.addr) v (q.requests) ∙ ev e, w.gone);
    kept = λ a o. w.kept a o.1 ∙ store-off (s.addr) v (q.requests) a (λ e. o.0 (sym e));
    pending_at = w.pending_at;
    live_at = w.live_at;
  }

  -- Behind a round that left the request as it was.
  Swept-skip :
      (s : Slot) (ss : List Slot) (q q' : AsyncRequestQueue T)
      → s.request.need_free ≡ false
      → Swept ss q q'
      → Swept (s ∷ ss) q q'
  Swept-skip s ss q q' en w = record {
    gone = (λ e. ground (arith, e, en), w.gone);
    kept = λ a o. w.kept a o.1;
    pending_at = w.pending_at;
    live_at = w.live_at;
  }

  moved :
      (q : AsyncRequestQueue T) (ks ls ms : List Slot)
      → ls ≡ ms
      → Holds hash q (ks ++ ls)
      → Holds hash q (ks ++ ms)
  moved q ks ls ms e v = subst (λ l. Holds hash q (ks ++ l)) e v

  clean_from-Cleans :
      (ks ss : List Slot) (q : AsyncRequestQueue T) → Holds hash q (ks ++ ss) → Cleans ks ss q
  unfolding Cleans clean_from
  clean_from-Cleans ks [] q v =
      (q, refl, v, record { gone = tt; kept = λ a o. refl; pending_at = refl; live_at = refl })
  clean_from-Cleans ks (s ∷ ss) q v = elim (clean_at-cases (s.addr) (s.request) q) [
    | inl (en, ec) ↦
        let (q', e, v', w) =
          clean_from-Cleans ks ss
            (record q { table = hash.del s.addr q.table; requests = store s.addr none q.requests })
            (freed-Holds q ks s ss v) in
        (
          q',
          first ∙ ap (clean_from hash now (map entry ss)) ec ∙ e,
          moved q' ks (sweep now ss) (sweep now (s ∷ ss)) (sweep_freed now s (sweep now ss) en) v',
          Swept-cons s ss none (hash.del s.addr q.table) q q' out (λ e. refl) w,
        )
    | inr c ↦ elim c [
      | inl (en, ep, ec) ↦
          let s' : Slot = record s { request = time_out s.request } in
          let (q', e, v', w) =
            clean_from-Cleans (ks ++ (s' ∷ [])) ss
              (record q { requests = store s.addr (some (time_out s.request)) q.requests })
              (subst
                (Holds hash
                  (record q { requests = store s.addr (some (time_out s.request)) q.requests }))
                (sym (append_assoc ks (s' ∷ []) ss)) (timed_out-Holds q ks s ss v)) in
          (
            q',
            first ∙ ap (clean_from hash now (map entry ss)) ec ∙ e,
            moved q' ks (s' ∷ sweep now ss) (sweep now (s ∷ ss))
                (sweep_timed_out now s (sweep now ss) en ep)
                (subst (Holds hash q') (append_assoc ks (s' ∷ []) (sweep now ss)) v'),
            Swept-cons s ss (some (time_out s.request)) q.table q q' out
                (λ e. ground (arith, e, en)) w,
          )
      | inr (en, ep, ec) ↦
          let (q', e, v', w) =
            clean_from-Cleans (ks ++ (s ∷ [])) ss q
              (subst (Holds hash q) (sym (append_assoc ks (s ∷ []) ss)) v) in
          (
            q',
            first ∙ ap (clean_from hash now (map entry ss)) ec ∙ e,
            moved q' ks (s ∷ sweep now ss) (sweep now (s ∷ ss))
                (sweep_kept now s (sweep now ss) en ep)
                (subst (Holds hash q') (append_assoc ks (s ∷ []) (sweep now ss)) v'),
            Swept-skip s ss q q' en w,
          )
    ]
  ]
    where
      out : All (λ e. e.1 ≢ s.addr) (map entry ss)
      out = All-right (λ e. e.1 ≢ s.addr) (map entry ks) (map entry ss) (elsewhere q ks s ss v)

      first :
          clean_from hash now (map entry (s ∷ ss)) q
          ≡ clean_from hash now (map entry ss) (clean_at hash now s.addr s.request q)
      first =
          clean_from-some (s.request.id) (s.addr) (map entry ss) (s.request) q
            (All-right (λ t. q.requests t.addr ≡ some t.request) ks (s ∷ ss) v.stored).0

  -- On a valid queue a cleanup uses no freed request; it deletes and frees the requests to be
  -- freed, makes the pending ones whose time is over TIMEOUT and to be freed, and keeps all
  -- others, the order and the pending queue, if the table keeps the laws of uthash.
  pub cleanup_completed-sweep :
      (ss : List Slot) (q : AsyncRequestQueue T)
      → Holds hash q ss
      → (q' : AsyncRequestQueue T) × (cleanup_completed hash now q ≡ some q')
        × Holds hash q' (sweep now ss)
        × Swept ss q q'
  unfolding cleanup_completed Cleans
  cleanup_completed-sweep ss q v =
      let (q', e, v', w) = clean_from-Cleans [] ss q v in
      (q', ap (λ es. clean_from hash now es q) v.entries_at ∙ e, v', w)
