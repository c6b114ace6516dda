-- ===== src/ShareMem/Protocol/Runs.antt =====
-- Runs of one producer and one consumer of share_mem_queue.c from a new queue.
use native.Mathlib.Nat.{mod-eq_of_lt}
use mathlib.Core.List.{append_assoc}
use my_common.Common.{
  ℕ, ◌+◌, ◌*◌, ◌^◌, ◌<◌, none, List, [], ◌∷◌, ◌++◌, ◌≡◌, refl, sym, ap, ◌∙◌, arith,
}
use my_common.ShareMem.Stream.{
  World, Step, got_write, filled, put_write, got_read, put_read, Channel, Act, opened, drafted,
  committed, taken, released, act_of, Moves, view, IsValid,
}
use my_common.ShareMem.Segments.{Platform, new_block}
use my_common.ShareMem.Protocol.Producer.{step_got_write, step_filled, step_put_write}
use my_common.ShareMem.Protocol.Consumer.{step_got_read, step_put_read}

pub data Reach (s : World) : World → Type 0 where
  here : Reach s s
  next : {t u : World} → Reach s t → Step t u → Reach s u

-- The acts of a run, the newest first.
abbrev pub acts : {s t : World} → Reach s t → List Act
acts here = []
acts (next r st) = act_of st ∷ acts r

-- A channel behind these very acts.
pub data Course (s : Channel) : List Act → Channel → Type 0 where
  start : Course s [] s
  move :
      {t u : Channel} {done : List Act} (a : Act)
      → Course s done t
      → Moves a t u
      → Course s (a ∷ done) u

-- The values committed and the values released, in order.
abbrev pub committed_in : List Act → List ℕ
committed_in [] = []
committed_in (committed v ∷ done) = committed_in done ++ (v ∷ [])
committed_in (opened v ∷ done) = committed_in done
committed_in (drafted v ∷ done) = committed_in done
committed_in (taken v ∷ done) = committed_in done
committed_in (released v ∷ done) = committed_in done

abbrev pub released_in : List Act → List ℕ
released_in [] = []
released_in (released v ∷ done) = released_in done ++ (v ∷ [])
released_in (opened v ∷ done) = released_in done
released_in (drafted v ∷ done) = released_in done
released_in (committed v ∷ done) = released_in done
released_in (taken v ∷ done) = released_in done

behind :
    {cs us : List ℕ} (rs is : List ℕ) (v : ℕ)
    → cs ≡ rs ++ is
    → us ≡ is ++ (v ∷ [])
    → cs ++ (v ∷ []) ≡ rs ++ us
behind rs is v e f =
    ap (λ l. l ++ (v ∷ [])) e ∙ append_assoc rs is (v ∷ []) ∙ ap (λ l. rs ++ l) (sym f)

passed :
    {cs is us rest : List ℕ} (rs : List ℕ) (v : ℕ)
    → cs ≡ rs ++ is
    → is ≡ v ∷ rest
    → us ≡ rest
    → cs ≡ (rs ++ (v ∷ [])) ++ us
passed {rest} rs v e f g =
    e
    ∙ ap (λ l. rs ++ l) f
    ∙ sym (append_assoc rs (v ∷ []) rest)
    ∙ ap (λ l. (rs ++ (v ∷ [])) ++ l) (sym g)

-- What was committed is what was released and what is there.
in_order :
    {s t : Channel} {done : List Act}
    → s.items ≡ []
    → Course s done t
    → committed_in done ≡ released_in done ++ t.items
in_order e start = sym e
in_order e (move (opened v) c m) = in_order e c ∙ rw m.2 refl
in_order e (move (drafted v) c m) = in_order e c ∙ rw m.2 refl
in_order e (move {t} {done} (committed v) c m) =
    behind (released_in done) t.items v (in_order e c) (ap Channel.items m.1)
in_order e (move (taken v) c m) = in_order e c ∙ rw m.3 refl
in_order e (move {done} (released v) c m) =
    passed (released_in done) v (in_order e c) m.2 (ap Channel.items m.3)

step_lem :
    {w u : World} → IsValid w → (st : Step w u) → IsValid u × Moves (act_of st) (view w) (view u)
step_lem v (got_write k p b e g eu) = step_got_write v k p b e g eu
step_lem v (filled p x e eu) = step_filled v p x e eu
step_lem v (put_write k p b e g eu) = step_put_write v k p b e g eu
step_lem v (got_read k p b e g eu) = step_got_read v k p b e g eu
step_lem v (put_read k p b e g eu) = step_put_read v k p b e g eu

reach_lem :
    {s t : World} → IsValid s → (r : Reach s t) → IsValid t × Course (view s) (acts r) (view t)
reach_lem v here = (v, start)
reach_lem v (next r st) =
    let (v', c) = reach_lem v r in let (v2, m) = step_lem v' st in (v2, move (act_of st) c m)

-- A new queue, whose elements hold anything.
abbrev pub initial : Platform → List ℕ → ℕ → ℕ → (ℕ → ℕ) → World
initial p id count size elements = record {
  block = new_block p id count size;
  elements = elements;
  writing = none;
  reading = none;
}

abbrev pub empty_channel : ℕ → Channel
empty_channel room = record { items = []; draft = none; front = none; room = room }

initial-IsValid :
    (p : Platform) (id : List ℕ) (count size : ℕ) (elements : ℕ → ℕ)
    → 0 < count
    → 0 < size
    → count < 2 ^ 32
    → count * size < 2 ^ 64
    → IsValid (initial p id count size elements)
unfolding new_block
initial-IsValid p id count size elements hc hs small fits = record {
  valid = refl;
  nonempty = hc;
  sized = hs;
  fits = fits;
  small = omega arith;
  read_in = hc;
  write_in = sym (mod-eq_of_lt {n = 0 + 0} {m = count} (omega arith));
  free = omega arith;
  full = refl;
  writes = tt;
  reads = tt;
}

-- However one producer and one consumer interleave their calls, and the producer its writes to
-- the element that it holds, from a new queue of fewer than 2^32 elements whose bytes fit 64
-- bits, the memory stays valid and goes through just these acts as a bounded queue of values: a
-- write is opened only where there is room and commits the value that its element then holds
-- behind the others; a read takes the oldest value, and the element still holds it when the read
-- releases it. The values committed, in order, are those released followed by those in the queue.
pub Reach-refines :
    (p : Platform) (id : List ℕ) (count size : ℕ) (elements : ℕ → ℕ) {w : World}
    → 0 < count
    → 0 < size
    → count < 2 ^ 32
    → count * size < 2 ^ 64
    → (r : Reach (initial p id count size elements) w)
    → IsValid w
      × Course (empty_channel count) (acts r) (view w)
      × (committed_in (acts r) ≡ released_in (acts r) ++ (view w).items)
unfolding new_block
Reach-refines p id count size elements hc hs small fits r =
    let (v, c) = reach_lem (initial-IsValid p id count size elements hc hs small fits) r in
    (v, c, in_order refl c)
