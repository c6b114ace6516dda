-- ===== src/RequestQueue/Destroy.antt =====
-- `async_request_queue_destroy` of common/request_que.c: the pending queue frees its data, which are
-- the pending requests, and then the requests of the table are freed.
use my_common.Common.{
  ℕ, ◌+◌, ◌≡◌, ◌≢◌, ◌<◌, refl, sym, ap, ◌∙◌, Option, none, some, List, [], ◌∷◌, map, length, All,
  Bool-cases, Option-cases, inl, inr, ◌⊎◌, arith, ◌==◌,
}
use my_common.Common.Heap.{Heap, store, store-at, store-off}
use my_common.ThreadSafeQueue.{Store}
use my_common.ThreadSafeQueue.Chain
use my_common.ThreadSafeQueue.Chain.{Cell}
use my_common.ThreadSafeQueue.Clear
use my_common.ThreadSafeQueue.Clear.{destroy, clear-Freed}
use my_common.RequestQueue.{AsyncRequest, AsyncRequestQueue}
use my_common.RequestQueue.Table.{Entry, UtHash, lookup}
use my_common.RequestQueue.Slots.{Slot, Apart, entry, Stored, Holds, Stored-store}

-- Each request is freed; a second free of one gives `none`.
unfoldable pub free_all : List ℕ → Heap AsyncRequest → Option (Heap AsyncRequest)
free_all [] h = some h
free_all (a ∷ ps) h = elim (h a) [ none ↦ none | some r ↦ free_all ps (store a none h) ]

abbrev pub after_pending :
    {R : Type 0} → List Entry → Option R → Option (Heap AsyncRequest) → Option (Heap AsyncRequest)
after_pending es none h = none
after_pending es (some r) none = none
after_pending es (some r) (some h) = free_all (map (λ e. e.1) es) h

abbrev pub after_clear :
    ℕ → List Entry → Heap AsyncRequest → Option (List ℕ × Store) → Option (Heap AsyncRequest)
after_clear fuel es h none = none
after_clear fuel es h (some (freed, s)) = after_pending es (destroy fuel s) (free_all freed h)

-- The memory of the requests at the end: the pending queue is cleared and then destroyed, and then
-- the requests of the table are freed in its order.
unfoldable pub destroy_requests :
    {T : Type 0} → UtHash T → ℕ → AsyncRequestQueue T → Option (Heap AsyncRequest)
unfolding free_all Clear.clear destroy
destroy_requests hash fuel q =
    after_clear fuel (hash.entries q.table) q.requests (Clear.clear fuel q.pending_queue)

-- A freed request stays freed.
stays-none :
    (ps : List ℕ) (h g : Heap AsyncRequest) (b : ℕ)
    → h b ≡ none
    → free_all ps h ≡ some g
    → g b ≡ none
unfolding free_all
stays-none [] h g b e eg = ground (arith, ap (λ o. o) eg, e)
stays-none (a ∷ ps) h g b e eg = elim (Option-cases (h a)) [
  | inl ea ↦ absurd (ground (arith, ea, eg))
  | inr (r, ea) ↦ stays-none ps (store a none h) g b (ground (arith, e)) (ground (arith, ea, eg))
]

-- A freed request in the table is freed again.
freed_again :
    (k b : ℕ) (es : List Entry) (h : Heap AsyncRequest)
    → lookup k es ≡ some b
    → h b ≡ none
    → free_all (map (λ e. e.1) es) h ≡ none
unfolding free_all
freed_again k b [] h e eb = absurd (ground (arith, e))
freed_again k b ((j, a) ∷ es) h e eb = elim (Option-cases (h a)) [
  | inl ea ↦ ground (arith, ea)
  | inr (r, ea) ↦ elim (Bool-cases (j == k)) [
    | inl c ↦ ground (arith, ea, eb, e, c)
    | inr c ↦
        ground (
          arith,
          ea,
          freed_again k b es (store a none h) (ground (arith, e, c)) (ground (arith, eb)),
        )
  ]
]

front_freed :
    (b : ℕ) (bs : List ℕ) (h g : Heap AsyncRequest) → free_all (b ∷ bs) h ≡ some g → g b ≡ none
unfolding free_all
front_freed b bs h g e = elim (Option-cases (h b)) [
  | inl eb ↦ absurd (ground (arith, eb, e))
  | inr (r, eb) ↦ stays-none bs (store b none h) g b (store-at b none h) (ground (arith, eb, e))
]

pending_refused :
    {R : Type 0} (es : List Entry) (o : Option R) (h : Option (Heap AsyncRequest))
    → (h ≡ none)
      ⊎ ((g : Heap AsyncRequest) × (h ≡ some g) × (free_all (map (λ e. e.1) es) g ≡ none))
    → after_pending es o h ≡ none
pending_refused es none h c = refl
pending_refused es (some r) h c = elim c [ inl e ↦ rw (e) refl | inr (g, e, ef) ↦ rw (e) ef ]

-- Freeing all requests of a table.
free_all-gone :
    (ss : List Slot) (h : Heap AsyncRequest)
    → Stored h ss
    → Apart (map entry ss)
    → (g : Heap AsyncRequest) × (free_all (map (λ e. e.1) (map entry ss)) h ≡ some g)
      × All (λ s. g s.addr ≡ none) ss
      × ((a : ℕ) → All (λ e. e.1 ≢ a) (map entry ss) → g a ≡ h a)
unfolding free_all
free_all-gone [] h st p = (h, refl, tt, λ a out. refl)
free_all-gone (s ∷ ss) h st p =
    let (g, e, gone, kept) =
      free_all-gone ss (store s.addr none h) (Stored-store h (s.addr) none ss p.0 st.1) p.1 in
    (
      g,
      ground (arith, st.0, e),
      (kept (s.addr) p.0 ∙ store-at (s.addr) none h, gone),
      λ a out. kept a out.1 ∙ store-off (s.addr) none h a (λ x. out.0 (sym x)),
    )

module _ {T : Type 0} (hash : UtHash T) (q : AsyncRequestQueue T) (ss : List Slot) where
  -- Where the pending queue of a valid queue starts with a request that the table has, the
  -- destruction, with more rounds than pending nodes for its loop, frees that request twice.
  pub destroy_requests-twice :
      (fuel k : ℕ) (c : Cell) (cs : List Cell)
      → Holds hash q ss
      → Chain.Holds q.pending_queue (c ∷ cs)
      → length cs + 1 < fuel
      → lookup k (map entry ss) ≡ some c.data_ptr
      → destroy_requests hash fuel q ≡ none
  unfolding destroy_requests
  destroy_requests-twice fuel k c cs v vp l found =
      let (s, e, vs, fs, ds) = clear-Freed fuel (c ∷ cs) (q.pending_queue) vp (omega arith) in
      let ptrs = map (λ d. d.data_ptr) cs in
      ap (after_clear fuel (hash.entries q.table) q.requests) e
      ∙ ap (λ es. after_pending es (destroy fuel s) (free_all (c.data_ptr ∷ ptrs) q.requests))
          v.entries_at
      ∙ pending_refused (map entry ss) (destroy fuel s) (free_all (c.data_ptr ∷ ptrs) q.requests)
          (elim (Option-cases (free_all (c.data_ptr ∷ ptrs) q.requests)) [
            | inl ef ↦ inl ef
            | inr (g, ef) ↦ inr (
              g,
              ef,
              freed_again k (c.data_ptr) (map entry ss) g found
                  (front_freed (c.data_ptr) ptrs (q.requests) g ef),
            )
          ])

  -- The destruction of a valid queue with nothing pending, with at least one round for its
  -- loop, frees each request of the table once and nothing else.
  pub destroy_requests-once :
      (fuel : ℕ)
      → Holds hash q ss
      → Chain.Holds q.pending_queue []
      → 0 < fuel
      → (g : Heap AsyncRequest) × (destroy_requests hash fuel q ≡ some g)
        × All (λ s. g s.addr ≡ none) ss
        × ((a : ℕ) → All (λ e. e.1 ≢ a) (map entry ss) → g a ≡ q.requests a)
  unfolding destroy_requests destroy Clear.clear free_all
  destroy_requests-once fuel v vp l =
      let (g, e, gone, kept) = free_all-gone ss (q.requests) v.stored v.apart in
      (g, ground (arith, vp.size_at, v.entries_at, e), gone, kept)
