-- ===== src/Ctos/Messages/Invariant.antt =====
-- What holds behind every course of calls on a message queue of common/ctos.c.
use my_common.Common.{
  ℕ, zero, suc, ◌+◌, ◌-◌, true, false, some, ◌∷◌, ◌++◌, map, set, replicate, length-replicate, ◌==◌,
  Bool-cases, inl, inr, ◌≡◌, refl, sym, ap, subst, ◌∙◌, arith,
}
use my_common.Ctos.Messages.{new_messages, element_at, claim_unused, unlinked, receive_pending}
use my_common.Ctos.Messages.Stages.{unclaimed, held, is_used, count_unclaimed, claim_unused-Found}
use my_common.Ctos.Messages.Protocol.{
  World, initial, is_some, claims_answered, receives_answered, Step, waited_claim, scanned, linked,
  dropped, signalled, waited_receive, unlinked_first, released, Reach, here, next, IsPlaced,
  IsValid,
}
use my_common.Ctos.Messages.Steps.{
  scanned-IsValid, linked-IsValid, dropped-IsValid, released-IsValid, first-rest, unlinked-IsValid,
  counted-IsValid,
}

Step-IsValid : {w u : World} → IsValid w → Step w u → IsValid u
Step-IsValid {w} {u} v (waited_claim h e) = subst IsValid (sym e) (
    counted-IsValid w (w.que.claim_semaphore - 1) (w.que.msg_semaphore) (w.claiming + 1)
      (w.receiving) (w.sending) v (omega arith) refl)
Step-IsValid {w} {u} v (scanned h e) = subst IsValid (sym e) (scanned-IsValid w v h)
Step-IsValid {w} {u} v (linked i g e) = subst IsValid (sym e) (linked-IsValid w i v g)
Step-IsValid {w} {u} v (dropped i g e) = subst IsValid (sym e) (dropped-IsValid w i v g)
Step-IsValid {w} {u} v (signalled h e) = subst IsValid (sym e) (
    counted-IsValid w (w.que.claim_semaphore) (w.que.msg_semaphore + 1) (w.claiming) (w.receiving)
      (w.sending - 1) v refl (omega arith))
Step-IsValid {w} {u} v (waited_receive h e) = subst IsValid (sym e) (
    counted-IsValid w (w.que.claim_semaphore) (w.que.msg_semaphore - 1) (w.claiming)
      (w.receiving + 1) (w.sending) v refl (omega arith))
Step-IsValid {w} {u} v (unlinked_first h e) = subst IsValid (sym e) (unlinked-IsValid w v h)
Step-IsValid {w} {u} v (released i g e) = subst IsValid (sym e) (released-IsValid w i v g)

Reach-IsValid : {s t : World} → IsValid s → Reach s t → IsValid t
Reach-IsValid v here = v
Reach-IsValid v (next r st) = Step-IsValid (Reach-IsValid v r) st

map-replicate : (n : ℕ) → replicate n false ≡ map is_used (replicate n unclaimed)
map-replicate zero = refl
map-replicate (suc n) = ap (λ l. false ∷ l) (map-replicate n)

count-replicate : (n : ℕ) → count_unclaimed (replicate n unclaimed) ≡ n
count-replicate zero = refl
count-replicate (suc n) = omega (arith, count-replicate n)

initial-IsValid :
    (index memory size n : ℕ)
    → IsPlaced (new_messages index memory size n)
    → IsValid (initial index memory size n)
initial-IsValid index memory size n p = record {
  placed = p;
  sizes = length-replicate n unclaimed;
  used_at = map-replicate n;
  claims = omega (arith, count-replicate n);
  messages = omega arith;
  pending_at = refl;
  in_queue = tt;
  once = tt;
  in_order = refl;
}

claims-true : (w : World) → IsValid w → claims_answered w ≡ true
claims-true w v = elim (Bool-cases (w.claiming == 0)) [
  | inl y ↦ rw y refl
  | inr m ↦
      let (i, g, e) = claim_unused-Found w.stages (ground (arith, v.claims)) in
      let found : claim_unused w.que.used ≡ some (i, map is_used (set w.stages i held)) =
        ap claim_unused v.used_at ∙ e in
      rw (m, found, g) refl
]

receives-true : (w : World) → IsValid w → receives_answered w ≡ true
unfolding receive_pending
receives-true w v = elim (Bool-cases (w.receiving == 0)) [
  | inl y ↦ rw y refl
  | inr m ↦
      let (i, rest, e) = first-rest w.queue (ground (arith, v.messages)) in
      let p : w.que.pending ≡ element_at w.que i ∷ map (element_at w.que) rest =
        v.pending_at ∙ ap (map (element_at w.que)) e in
      rw m (ap (λ ms. is_some (unlinked w.que ms).0) p)
]

-- Whatever threads claim, send, receive and release in any order, each element only while it is
-- theirs, on a new queue with a block of less than 2^32 bytes whose low 32 bits of addresses do
-- not wrap: a claim behind its wait finds an element that no client has and that is not pending,
-- a receive behind its wait finds a message, the messages received and then the pending ones are
-- those sent, in order, and the claim semaphore with the claims behind their waits counts the
-- elements that no one has.
pub reachable-answered :
    (index memory size n : ℕ) {w : World}
    → IsPlaced (new_messages index memory size n)
    → Reach (initial index memory size n) w
    → (claims_answered w ≡ true)
      × (receives_answered w ≡ true)
      × (w.received ++ w.que.pending ≡ w.sent)
      × (w.que.claim_semaphore + w.claiming ≡ count_unclaimed w.stages)
reachable-answered index memory size n {w} p r =
    let v = Reach-IsValid (initial-IsValid index memory size n p) r in
    (claims-true w v, receives-true w v, v.in_order, v.claims)
