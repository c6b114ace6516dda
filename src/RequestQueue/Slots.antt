-- ===== src/RequestQueue/Slots.antt =====
-- The requests of common/request_que.c in memory and in the table: what a valid queue is.
use my_common.Common.{
  ℕ, ◌≡◌, ◌≢◌, ◌<◌, refl, sym, ◌∙◌, subst, true, false, Option, none, some, List, [], ◌∷◌, map, All,
  Bool-cases, ◌⊎◌, inl, inr, arith, ◌==◌, if◌then◌else◌,
}
use my_common.Common.Distinct.{DistinctBy}
use my_common.Common.Heap.{Heap, store, store-off}
use my_common.RequestQueue.{AsyncRequest, AsyncRequestQueue}
use my_common.RequestQueue.Table.{Entry, UtHash, lookup, UniqueKeys}

-- A request at an address.
pub record Slot : Type 0 where
  pub addr : ℕ
  pub request : AsyncRequest

abbrev pub entry : Slot → Entry
entry s = (s.request.id, s.addr)

abbrev pub Stored : Heap AsyncRequest → List Slot → Type 0
Stored h ss = All (λ s. h s.addr ≡ some s.request) ss

-- The addresses of the entries differ.
abbrev pub Apart : List Entry → Type 0
Apart = DistinctBy (λ e. e.1)

-- The request with an id, and the change of it.
abbrev pub request_of : ℕ → List Slot → Option AsyncRequest
request_of k [] = none
request_of k (s ∷ ss) =
    let rest = request_of k ss in if s.request.id == k then some s.request else rest

abbrev pub amend : ℕ → (AsyncRequest → AsyncRequest) → List Slot → List Slot
amend k f [] = []
amend k f (s ∷ ss) =
    let rest = amend k f ss in
    if s.request.id == k then record s { request = f s.request } ∷ rest else s ∷ rest

-- A change that keeps the id.
abbrev pub KeepsId : (AsyncRequest → AsyncRequest) → Type 0
KeepsId f = (r : AsyncRequest) → (f r).id ≡ r.id

module _ {T : Type 0} (hash : UtHash T) where
  -- The table has these requests, in its order, each in memory at its address, with different ids at
  -- different addresses; and their ids have been given out already.
  pub record Holds (q : AsyncRequestQueue T) (ss : List Slot) : Type 0 where
    pub entries_at : hash.entries q.table ≡ map entry ss
    pub stored : Stored q.requests ss
    pub apart : Apart (map entry ss)
    pub unique : UniqueKeys (map entry ss)
    pub given : All (λ e. (0 < e.0) × (e.0 < q.next_id)) (map entry ss)

-- No request has the id.
pub request_of-none :
    (k : ℕ) (ss : List Slot) → All (λ e. e.0 ≢ k) (map entry ss) → request_of k ss ≡ none
request_of-none k [] h = refl
request_of-none k (s ∷ ss) h = ground (arith, h.0, request_of-none k ss h.1)

amend-none :
    (k : ℕ) (f : AsyncRequest → AsyncRequest) (ss : List Slot)
    → All (λ e. e.0 ≢ k) (map entry ss)
    → amend k f ss ≡ ss
amend-none k f [] h = refl
amend-none k f (s ∷ ss) h = ground (arith, h.0, amend-none k f ss h.1)

pub entry-amend :
    (k : ℕ) (f : AsyncRequest → AsyncRequest) (ss : List Slot)
    → KeepsId f
    → map entry (amend k f ss) ≡ map entry ss
entry-amend k f [] keeps = refl
entry-amend k f (s ∷ ss) keeps = ground (arith, keeps (s.request), entry-amend k f ss keeps)

-- What becomes of each request.
pub request_of-amend :
    (k : ℕ) (f : AsyncRequest → AsyncRequest) (r : AsyncRequest) (ss : List Slot)
    → KeepsId f
    → request_of k ss ≡ some r
    → request_of k (amend k f ss) ≡ some (f r)
request_of-amend k f r [] keeps e = absurd (ground (arith, e))
request_of-amend k f r (s ∷ ss) keeps e =
    ground (arith, e, keeps (s.request), request_of-amend k f r ss keeps)

pub request_of-amend_other :
    (j k : ℕ) (f : AsyncRequest → AsyncRequest) (ss : List Slot)
    → KeepsId f
    → j ≢ k
    → request_of j (amend k f ss) ≡ request_of j ss
request_of-amend_other j k f [] keeps ne = refl
request_of-amend_other j k f (s ∷ ss) keeps ne =
    ground (arith, ne, keeps (s.request), request_of-amend_other j k f ss keeps ne)

-- The table's answer: nothing, or the address of the request with the id.
pub lookup-none : (k : ℕ) (ss : List Slot) → lookup k (map entry ss) ≡ none → request_of k ss ≡ none
lookup-none k [] e = refl
lookup-none k (s ∷ ss) e = ground (arith, e, lookup-none k ss)

-- The first request has the id, or the table finds a later one.
pub lookup-cases :
    (k a : ℕ) (s : Slot) (ss : List Slot)
    → lookup k (map entry (s ∷ ss)) ≡ some a
    → ((s.request.id == k) ≡ true) × (s.request.id ≡ k) × (s.addr ≡ a)
      ⊎ ((s.request.id == k) ≡ false) × (lookup k (map entry ss) ≡ some a)
lookup-cases k a s ss e = elim (Bool-cases (s.request.id == k)) [
  | inl b ↦ inl (b, ground (arith, b), ground (arith, b, e))
  | inr b ↦ inr (b, ground (arith, b, e))
]

pub lookup-some :
    (k a : ℕ) (h : Heap AsyncRequest) (ss : List Slot)
    → Stored h ss
    → lookup k (map entry ss) ≡ some a
    → (r : AsyncRequest) × (h a ≡ some r) × (request_of k ss ≡ some r) × (r.id ≡ k)
lookup-some k a h [] st e = absurd (ground (arith, e))
lookup-some k a h (s ∷ ss) st e = elim (lookup-cases k a s ss e) [
  | inl (b, ei, ea) ↦ (s.request, subst (λ x. h x ≡ some s.request) ea st.0, rw (b) refl, ei)
  | inr (b, e') ↦ let (r, er, ef, ei) = lookup-some k a h ss st.1 e' in (r, er, rw (b) ef, ei)
]

-- An address of none of the requests is not the one found.
lookup-addr :
    (k a b : ℕ) (ss : List Slot)
    → All (λ e. e.1 ≢ b) (map entry ss)
    → lookup k (map entry ss) ≡ some a
    → a ≢ b
lookup-addr k a b [] h e = absurd (ground (arith, e))
lookup-addr k a b (s ∷ ss) h e = elim (lookup-cases k a s ss e) [
  | inl (c, ei, ea) ↦ λ eq. h.0 (ea ∙ eq)
  | inr (c, e') ↦ lookup-addr k a b ss h.1 e'
]

pub Stored-store :
    (h : Heap AsyncRequest) (a : ℕ) (v : Option AsyncRequest) (ss : List Slot)
    → All (λ e. e.1 ≢ a) (map entry ss)
    → Stored h ss
    → Stored (store a v h) ss
Stored-store h a v [] out st = tt
Stored-store h a v (s ∷ ss) out st =
    (store-off a v h (s.addr) out.0 ∙ st.0, Stored-store h a v ss out.1 st.1)

-- A change of the request that the table finds.
pub Stored-amend :
    (k a : ℕ) (h : Heap AsyncRequest) (r : AsyncRequest) (f : AsyncRequest → AsyncRequest)
    (ss : List Slot)
    → Stored h ss
    → Apart (map entry ss)
    → UniqueKeys (map entry ss)
    → lookup k (map entry ss) ≡ some a
    → h a ≡ some r
    → Stored (store a (some (f r)) h) (amend k f ss)
Stored-amend k a h r f [] st p u e er = tt
Stored-amend k a h r f (s ∷ ss) st p u e er = elim (lookup-cases k a s ss e) [
  | inl (b, ei, ea) ↦
      rw (b, amend-none k f ss (subst (λ j. All (λ d. d.0 ≢ j) (map entry ss)) ei u.0))
        (
          ground (arith, ea, er, st.0),
          Stored-store h a (some (f r)) ss (subst (λ x. All (λ d. d.1 ≢ x) (map entry ss)) ea p.0)
              st.1,
        )
  | inr (b, e') ↦ rw (b) (
    store-off a (some (f r)) h (s.addr) (λ x. lookup-addr k a (s.addr) ss p.0 e' (sym x)) ∙ st.0,
    Stored-amend k a h r f ss st.1 p.1 u.1 e' er,
  )
]
