-- ===== src/CommQue/Wait.antt =====
-- The waiting loops of `CommQue_GetFull` and `CommQue_GetEmpty`, over every course of wakes.
use my_common.Common.{
  ℕ, ◌≡◌, refl, sym, subst, ◌%◌, ◌⊎◌, inl, inr, ◌≢◌, Bool, true, false, Option, some, List, [], ◌∷◌,
  All, arith, Bool-cases,
}
use my_common.Common.Words.{add32, sub32}
use my_common.CommQue.{
  CommQue, Timeout, no_wait, forever, within, Wake, woken, timed_out, returned, blocked, state_at,
  wait_loop, slot_ptr, waits_full, waits_empty, take_full, take_empty, get_full, get_empty,
}

-- A state that the call saw: the one it began in, or one that it found at a wake.
abbrev pub Saw : {S : Type 0} → S → List (Wake S) → S → Type 0
Saw s [] q = s ≡ q
Saw s (w ∷ ws) q = (s ≡ q) ⊎ Saw s ws (state_at w)

module _ {S : Type 0} (waits : S → Bool) (take : S → Option ℕ × S) where
  -- The loop gives an element only out of a state in which it need not wait.
  pub wait_loop-some :
      (t : Timeout) (ws : List (Wake S)) (q : S) (p : ℕ) (q' : S)
      → wait_loop waits take t ws q ≡ returned (some p) q'
      → (s : S) × Saw s ws q × (waits s ≡ false) × (take s ≡ (some p, q'))
  unfolding wait_loop
  wait_loop-some no_wait [] q p q' e = (q, refl, ground arith, ground arith)
  wait_loop-some forever [] q p q' e = (q, refl, ground arith, ground arith)
  wait_loop-some (within ms) [] q p q' e = (q, refl, ground arith, ground arith)
  wait_loop-some no_wait (w ∷ ws) q p q' e = (q, inl refl, ground arith, ground arith)
  wait_loop-some forever (w ∷ ws) q p q' e = elim (Bool-cases (waits q)) [
    | inl more ↦
        let (s, saw, nw, got) = wait_loop-some forever ws (state_at w) p q' (ground arith) in
        (s, inr saw, nw, got)
    | inr done ↦ (q, inl refl, done, ground arith)
  ]
  wait_loop-some (within ms) (timed_out r ∷ ws) q p q' e = (q, inl refl, ground arith, ground arith)
  wait_loop-some (within ms) (woken r ∷ ws) q p q' e = elim (Bool-cases (waits q)) [
    | inl more ↦
        let (s, saw, nw, got) = wait_loop-some (within ms) ws r p q' (ground arith) in
        (s, inr saw, nw, got)
    | inr done ↦ (q, inl refl, done, ground arith)
  ]

  -- With no time limit the loop goes on exactly while every state that it finds makes it wait.
  pub wait_loop-blocked :
      (ws : List (Wake S)) (q q' : S)
      → wait_loop waits take forever ws q ≡ blocked q'
      → (waits q ≡ true) × All (λ w. waits (state_at w) ≡ true) ws
  unfolding wait_loop
  wait_loop-blocked [] q q' e = (ground arith, tt)
  wait_loop-blocked (w ∷ ws) q q' e =
      let more : waits q ≡ true = ground arith in
      let rest : wait_loop waits take forever ws (state_at w) ≡ blocked q' = ground arith in
      (more, wait_loop-blocked ws (state_at w) q' rest)

-- All the states that a call saw share what its first state and its wakes have.
Saw-All :
    (P : CommQue → Type 0) (s : CommQue) (ws : List (Wake CommQue)) (q : CommQue)
    → Saw s ws q
    → P q
    → All (λ w. P (state_at w)) ws
    → P s
Saw-All P s [] q saw h hs = subst P (sym saw) h
Saw-All P s (w ∷ ws) q (inl e) h hs = subst P (sym e) h
Saw-All P s (w ∷ ws) q (inr saw) h hs = Saw-All P s ws (state_at w) saw hs.0 hs.1

-- For every timeout and every course of wakes, CommQue_GetFull returns an element only out of a
-- state that it saw in which an element is full and the queue is not destroyed: the slot at the
-- read index, which it leaves behind in one step of read and fullCount, with all else unchanged.
get_full-some :
    (t : Timeout) (ws : List (Wake CommQue)) (q : CommQue) (p : ℕ) (q' : CommQue)
    → get_full t ws q ≡ returned (some p) q'
    → (s : CommQue) × Saw s ws q
      × (s.full_count ≢ 0)
      × (s.is_destroyed ≡ false)
      × (p ≡ slot_ptr s s.read)
      × (q' ≡ record s { read = add32 s.read 1 % s.max_count; full_count = sub32 s.full_count 1 })
unfolding get_full waits_full take_full
get_full-some t ws q p q' e =
    let (s, saw, nw, got) = wait_loop-some waits_full take_full t ws q p q' e in
    (s, saw, ground arith, ground arith, ground arith, ground arith)

-- For every timeout and every course of wakes, CommQue_GetEmpty returns a slot only out of a
-- state that it saw in which a slot is empty and the queue is not destroyed: the slot at the
-- write index, which it leaves behind in one step of write and emptyCount, with all else
-- unchanged.
pub get_empty-some :
    (t : Timeout) (ws : List (Wake CommQue)) (q : CommQue) (p : ℕ) (q' : CommQue)
    → get_empty t ws q ≡ returned (some p) q'
    → (s : CommQue) × Saw s ws q
      × (s.empty_count ≢ 0)
      × (s.is_destroyed ≡ false)
      × (p ≡ slot_ptr s s.write)
      × (q'
          ≡ record s { write = add32 s.write 1 % s.max_count; empty_count = sub32 s.empty_count 1 })
unfolding get_empty waits_empty take_empty
get_empty-some t ws q p q' e =
    let (s, saw, nw, got) = wait_loop-some waits_empty take_empty t ws q p q' e in
    (s, saw, ground arith, ground arith, ground arith, ground arith)

-- A call of CommQue_GetFull or CommQue_GetEmpty with no time limit does not stay blocked once it
-- has seen a state in which the test of its waiting loop fails.
get_forever-returns :
    (s : CommQue) (ws : List (Wake CommQue)) (q q' : CommQue)
    → Saw s ws q
    → ((waits_full s ≡ false) → get_full forever ws q ≢ blocked q')
      × ((waits_empty s ≡ false) → get_empty forever ws q ≢ blocked q')
unfolding get_full get_empty
get_forever-returns s ws q q' saw = (
  λ go e.
      let (h, hs) = wait_loop-blocked waits_full take_full ws q q' e in
      let still : waits_full s ≡ true = Saw-All (λ r. waits_full r ≡ true) s ws q saw h hs in cc,
  λ go e.
      let (h, hs) = wait_loop-blocked waits_empty take_empty ws q q' e in
      let still : waits_empty s ≡ true = Saw-All (λ r. waits_empty r ≡ true) s ws q saw h hs in cc,
)
