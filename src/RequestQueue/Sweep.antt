-- ===== src/RequestQueue/Sweep.antt =====
-- What a cleanup of common/request_que.c does to a list of requests.
use my_common.Common.{
  ℕ, ◌≡◌, ◌≢◌, refl, true, false, ◌&&◌, List, [], ◌∷◌, ◌++◌, All, arith, if◌then◌else◌,
}
use my_common.RequestQueue.{timeout, AsyncRequest, is_pending, expired}
use my_common.RequestQueue.Table.{Entry, without}
use my_common.RequestQueue.Slots.{Slot}

abbrev pub time_out : AsyncRequest → AsyncRequest
time_out r = record r { status = timeout; need_free = true }

-- What a cleanup does to the requests: those to be freed go, and pending ones whose time is over
-- become TIMEOUT, to be freed by the next cleanup.
abbrev pub sweep_one : ℕ → Slot → List Slot → List Slot
sweep_one now s rest =
    if s.request.need_free
    then rest
    else if is_pending s.request.status && expired now s.request
    then record s { request = time_out s.request } ∷ rest
    else s ∷ rest

abbrev pub sweep : ℕ → List Slot → List Slot
sweep now [] = []
sweep now (s ∷ ss) = sweep_one now s (sweep now ss)

-- Deleting an entry in the middle.
pub without-middle :
    (a : ℕ) (k : ℕ) (ds es : List Entry)
    → All (λ e. e.1 ≢ a) (ds ++ es)
    → without a (ds ++ ((k, a) ∷ es)) ≡ ds ++ es
without-middle a k [] [] out = ground arith
without-middle a k [] (e ∷ es) out = ground (arith, without-middle a k [] es out.1, out.0)
without-middle a k (d ∷ ds) es out = ground (arith, out.0, without-middle a k ds es out.1)

module _ (now : ℕ) (s : Slot) (rest : List Slot) where
  pub sweep_freed : s.request.need_free ≡ true → rest ≡ sweep_one now s rest
  sweep_freed e = rw (e) refl

  pub sweep_timed_out :
      s.request.need_free ≡ false
      → (is_pending s.request.status && expired now s.request) ≡ true
      → record s { request = time_out s.request } ∷ rest ≡ sweep_one now s rest
  sweep_timed_out e p = rw (e, p) refl

  pub sweep_kept :
      s.request.need_free ≡ false
      → (is_pending s.request.status && expired now s.request) ≡ false
      → s ∷ rest ≡ sweep_one now s rest
  sweep_kept e p = rw (e, p) refl
