-- ===== src/Ctos/Messages/Stages.antt =====
-- Who has which element of a message queue of common/ctos.c.
use my_common.Common.{
  ℕ, zero, suc, ◌<◌, ◌≢◌, Bool, true, false, some, List, [], ◌∷◌, map, set, get_elem?,
  get_elem?-set_other, total, All, ◌≡◌, refl, ap, arith,
}
use my_common.Ctos.Messages.{claim_unused, next_claim}

-- No client has it; a client has it, to send or to release it; it is pending; or it was given to a
-- send that had no memory for its node.
pub data Stage : Type 0 where
  unclaimed held queued lost : Stage

abbrev pub is_used : Stage → Bool
is_used unclaimed = false
is_used held = true
is_used queued = true
is_used lost = true

abbrev pub one_if_unclaimed : Stage → ℕ
one_if_unclaimed unclaimed = 1
one_if_unclaimed held = 0
one_if_unclaimed queued = 0
one_if_unclaimed lost = 0

abbrev pub count_unclaimed : List Stage → ℕ
count_unclaimed = total one_if_unclaimed

pub map-set :
    (ss : List Stage) (i : ℕ) (s : Stage)
    → map is_used (set ss i s) ≡ set (map is_used ss) i (is_used s)
map-set [] i s = refl
map-set (x ∷ ss) zero s = refl
map-set (x ∷ ss) (suc i) s = ap (λ l. is_used x ∷ l) (map-set ss i s)

-- An element that stays used when it is set.
pub map-set_used :
    (ss : List Stage) (i : ℕ) (s t : Stage)
    → get_elem? ss i ≡ some t
    → is_used s ≡ is_used t
    → map is_used (set ss i s) ≡ map is_used ss
map-set_used [] i s t h u = refl
map-set_used (x ∷ ss) zero s t h u = ground arith
map-set_used (x ∷ ss) (suc i) s t h u = ap (λ l. is_used x ∷ l) (map-set_used ss i s t h u)

-- An unclaimed element, which the search finds.
abbrev pub Found : List Stage → Type 0
Found ss =
    (i : ℕ) × (get_elem? ss i ≡ some unclaimed)
    × (claim_unused (map is_used ss) ≡ some (i, map is_used (set ss i held)))

Found-behind : (s : Stage) (ss : List Stage) → is_used s ≡ true → Found ss → Found (s ∷ ss)
Found-behind s ss u (i, g, e) = (suc i, g, rw u (ap next_claim e))

pub claim_unused-Found : (ss : List Stage) → 0 < count_unclaimed ss → Found ss
claim_unused-Found [] h = absurd (omega arith)
claim_unused-Found (unclaimed ∷ ss) h = (0, refl, refl)
claim_unused-Found (held ∷ ss) h = Found-behind held ss refl (claim_unused-Found ss (omega arith))
claim_unused-Found (queued ∷ ss) h =
    Found-behind queued ss refl (claim_unused-Found ss (omega arith))
claim_unused-Found (lost ∷ ss) h = Found-behind lost ss refl (claim_unused-Found ss (omega arith))

-- Elements of one stage, none of which is set, keep it.
pub All-set :
    (ss : List Stage) (i : ℕ) (s t : Stage) (js : List ℕ)
    → All (λ j. j ≢ i) js
    → All (λ j. get_elem? ss j ≡ some t) js
    → All (λ j. get_elem? (set ss i s) j ≡ some t) js
All-set ss i s t [] out h = tt
All-set ss i s t (j ∷ js) out h =
    (rw (get_elem?-set_other ss i j s out.0) h.0, All-set ss i s t js out.1 h.1)

-- Elements of one stage are no element of another.
pub All-apart :
    (ss : List Stage) (i : ℕ) (s t : Stage) (js : List ℕ)
    → get_elem? ss i ≡ some s
    → s ≢ t
    → All (λ j. get_elem? ss j ≡ some t) js
    → All (λ j. j ≢ i) js
All-apart ss i s t [] g n h = tt
All-apart ss i s t (j ∷ js) g n h =
    (λ e. n (let same : some s ≡ some t = cc (g, h.0, e) in cc same), All-apart ss i s t js g n h.1)
