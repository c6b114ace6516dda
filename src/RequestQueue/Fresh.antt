-- ===== src/RequestQueue/Fresh.antt =====
-- That a new request of common/request_que.c has an id and a place of its own.
use my_common.Common.{ℕ, ◌+◌, ◌^◌, ◌≡◌, ◌≢◌, ◌<◌, none, List, [], ◌∷◌, ◌++◌, map, All, arith}
use my_common.Common.Heap.{Heap}
use my_common.RequestQueue.{AsyncRequest, id_after}
use my_common.RequestQueue.Table.{Entry, without}
use my_common.RequestQueue.Slots.{Slot, entry, Stored}

-- No id follows but the next, and never 0.
pub id_after-suc : (k : ℕ) → k + 1 < 2 ^ 64 → id_after k ≡ k + 1
unfolding id_after
id_after-suc k h = ground arith

-- The addresses of requests in memory are in use.
pub used :
    (h : Heap AsyncRequest) (a : ℕ) (ss : List Slot)
    → h a ≡ none
    → Stored h ss
    → All (λ e. e.1 ≢ a) (map entry ss)
used h a [] free st = tt
used h a (s ∷ ss) free st = ((λ e. ground (arith, free, st.0, e)), used h a ss free st.1)

-- Ids below the next one differ from it.
pub below :
    (k : ℕ) (ss : List Slot)
    → All (λ e. (0 < e.0) × (e.0 < k)) (map entry ss)
    → All (λ e. e.0 ≢ k) (map entry ss)
below k [] h = tt
below k (s ∷ ss) h = (omega (arith, h.0.1), below k ss h.1)

pub still_given :
    (k j : ℕ) (ss : List Slot)
    → j ≡ k + 1
    → All (λ e. (0 < e.0) × (e.0 < k)) (map entry ss)
    → All (λ e. (0 < e.0) × (e.0 < j)) (map entry ss)
still_given k j [] ej h = tt
still_given k j (s ∷ ss) ej h = ((h.0.0, omega (arith, h.0.1, ej)), still_given k j ss ej h.1)

pub without-last :
    (k a : ℕ) (es : List Entry) → All (λ e. e.1 ≢ a) es → without a (es ++ ((k, a) ∷ [])) ≡ es
without-last k a [] out = ground arith
without-last k a (e ∷ es) out = ground (arith, out.0, without-last k a es out.1)
