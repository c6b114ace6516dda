-- ===== src/Ctos/Messages/Steps.antt =====
-- What each step on a message queue of common/ctos.c keeps.
use my_common.Common.{
  ℕ, ◌+◌, ◌-◌, ◌*◌, ◌%◌, ◌^◌, ◌<◌, true, false, some, List, [], ◌∷◌, ◌++◌, map, length, set,
  get_elem?, get_elem?-set_self, get_elem?-lt, length-set, total-set, length-append, map-append,
  All, All-append, ltb, ◌≡◌, refl, sym, ap, subst, ◌∙◌, arith,
}
use mathlib.Core.List.{append_assoc}
use my_common.Common.Distinct.{DistinctBy, DistinctBy-snoc}
use my_common.Ctos.Messages.{
  element_at, claim_unused, claim_scan, link_pending, unlinked, receive_pending, release,
}
use my_common.Ctos.Messages.Release.{release-Freed, offset_in}
use my_common.Ctos.Messages.Stages.{
  unclaimed, held, queued, lost, is_used, one_if_unclaimed, map-set, map-set_used,
  claim_unused-Found, All-set, All-apart,
}
use my_common.Ctos.Messages.Protocol.{World, after_claim, after_receive, IsValid}

-- A thread past the wait of a claim finds an element.
pub scanned-IsValid :
    (w : World)
    → IsValid w
    → 0 < w.claiming
    → IsValid (record w {
      que = (claim_scan w.que).1;
      claiming = w.claiming - 1;
      stages = after_claim (claim_unused w.que.used) w.stages;
    })
unfolding claim_scan
scanned-IsValid w v h =
    let (i, g, e) = claim_unused-Found w.stages (omega (arith, v.claims)) in
    let found : claim_unused w.que.used ≡ some (i, map is_used (set w.stages i held)) =
      ap claim_unused v.used_at ∙ e in
    let counted = total-set one_if_unclaimed w.stages i held unclaimed g in
    rw found (record {
      placed = v.placed;
      sizes = length-set w.stages i held ∙ v.sizes;
      used_at = refl;
      claims = omega (arith, v.claims, counted);
      messages = v.messages;
      pending_at = v.pending_at;
      in_queue =
          All-set w.stages i held queued w.queue
            (All-apart w.stages i unclaimed queued w.queue g (λ k. cc) v.in_queue) v.in_queue;
      once = v.once;
      in_order = v.in_order;
    })

pub linked-IsValid :
    (w : World) (i : ℕ)
    → IsValid w
    → get_elem? w.stages i ≡ some held
    → IsValid (record w {
      que = link_pending (element_at w.que i) w.que;
      sending = w.sending + 1;
      stages = set w.stages i queued;
      queue = w.queue ++ (i ∷ []);
      sent = w.sent ++ (element_at w.que i ∷ []);
    })
unfolding link_pending
linked-IsValid w i v g =
    let apart = All-apart w.stages i held queued w.queue g (λ k. cc) v.in_queue in
    let counted = total-set one_if_unclaimed w.stages i queued held g in
    record {
      placed = v.placed;
      sizes = length-set w.stages i queued ∙ v.sizes;
      used_at = v.used_at ∙ sym (map-set_used w.stages i queued held g refl);
      claims = omega (arith, v.claims, counted);
      messages = omega (arith, v.messages, length-append w.queue (i ∷ []));
      pending_at =
          ap (λ l. l ++ (element_at w.que i ∷ [])) v.pending_at
          ∙ sym (map-append (element_at w.que) w.queue (i ∷ []));
      in_queue =
          All-append (λ j. get_elem? (set w.stages i queued) j ≡ some queued) w.queue (i ∷ [])
            (All-set w.stages i queued queued w.queue apart v.in_queue)
            (get_elem?-set_self w.stages i queued held g, tt);
      once = DistinctBy-snoc (λ j. j) w.queue i apart v.once;
      in_order =
          sym (append_assoc w.received w.que.pending (element_at w.que i ∷ []))
          ∙ ap (λ l. l ++ (element_at w.que i ∷ [])) v.in_order;
    }

pub dropped-IsValid :
    (w : World) (i : ℕ)
    → IsValid w
    → get_elem? w.stages i ≡ some held
    → IsValid (record w { stages = set w.stages i lost })
dropped-IsValid w i v g =
    let apart = All-apart w.stages i held queued w.queue g (λ k. cc) v.in_queue in
    let counted = total-set one_if_unclaimed w.stages i lost held g in
    record {
      placed = v.placed;
      sizes = length-set w.stages i lost ∙ v.sizes;
      used_at = v.used_at ∙ sym (map-set_used w.stages i lost held g refl);
      claims = omega (arith, v.claims, counted);
      messages = v.messages;
      pending_at = v.pending_at;
      in_queue = All-set w.stages i lost queued w.queue apart v.in_queue;
      once = v.once;
      in_order = v.in_order;
    }

pub released-IsValid :
    (w : World) (i : ℕ)
    → IsValid w
    → get_elem? w.stages i ≡ some held
    → IsValid
        (record w { que = release (element_at w.que i) w.que; stages = set w.stages i unclaimed })
released-IsValid w i v g =
    let q = w.que in
    let inside : i < q.no_elements = omega (arith, get_elem?-lt w.stages i held g, v.sizes) in
    let freed = release-Freed q i v.placed.0 inside v.placed.1 v.placed.2 in
    let below : ltb (q.memory % 2 ^ 32 + i * q.element_size) (2 ^ 32) ≡ true =
      ground (
        arith,
        offset_in i q.no_elements q.element_size inside v.placed.1,
        v.placed.3,
        v.placed.1,
      ) in
    let apart = All-apart w.stages i held queued w.queue g (λ k. cc) v.in_queue in
    let counted = total-set one_if_unclaimed w.stages i unclaimed held g in
    rw (freed, below)
      (record {
        placed = v.placed;
        sizes = length-set w.stages i unclaimed ∙ v.sizes;
        used_at = ap (λ l. set l i false) v.used_at ∙ sym (map-set w.stages i unclaimed);
        claims = omega (arith, v.claims, counted);
        messages = v.messages;
        pending_at = v.pending_at;
        in_queue = All-set w.stages i unclaimed queued w.queue apart v.in_queue;
        once = v.once;
        in_order = v.in_order;
      })

pub first-rest : (is : List ℕ) → 0 < length is → (i : ℕ) × (rest : List ℕ) × (is ≡ i ∷ rest)
first-rest [] h = absurd (omega arith)
first-rest (i ∷ rest) h = (i, rest, refl)

-- A thread past the wait of a receive finds a message.
pub unlinked-IsValid :
    (w : World)
    → IsValid w
    → 0 < w.receiving
    → IsValid (after_receive w (receive_pending w.que) w.queue)
unfolding receive_pending
unlinked-IsValid w v h =
    let (i, rest, e) = first-rest w.queue (omega (arith, v.messages)) in
    let p : w.que.pending ≡ element_at w.que i ∷ map (element_at w.que) rest =
      v.pending_at ∙ ap (map (element_at w.que)) e in
    let first : All (λ j. get_elem? w.stages j ≡ some queued) (i ∷ rest) =
      subst (All (λ j. get_elem? w.stages j ≡ some queued)) e v.in_queue in
    let apart : DistinctBy (λ j. j) (i ∷ rest) = subst (DistinctBy (λ j. j)) e v.once in
    let counted = total-set one_if_unclaimed w.stages i held queued first.0 in
    let state = λ (ms is : List ℕ). IsValid (after_receive w (unlinked w.que ms) is) in
    subst (state w.que.pending) (sym e) (
      subst (λ ms. state ms (i ∷ rest)) (sym p)
        (record {
          placed = v.placed;
          sizes = length-set w.stages i held ∙ v.sizes;
          used_at = v.used_at ∙ sym (map-set_used w.stages i held queued first.0 refl);
          claims = omega (arith, v.claims, counted);
          messages = omega (arith, v.messages, ap length e);
          pending_at = refl;
          in_queue = All-set w.stages i held queued rest apart.0 first.1;
          once = apart.1;
          in_order =
              append_assoc w.received (element_at w.que i ∷ []) (map (element_at w.que) rest)
              ∙ ap (λ l. w.received ++ l) (sym p)
              ∙ v.in_order;
        }))

-- Steps of the semaphores alone.
pub counted-IsValid :
    (w : World) (claims messages claiming receiving sending : ℕ)
    → IsValid w
    → claims + claiming ≡ w.que.claim_semaphore + w.claiming
    → messages + receiving + sending ≡ w.que.msg_semaphore + w.receiving + w.sending
    → IsValid (record w {
      que = record (w.que) { claim_semaphore = claims; msg_semaphore = messages };
      claiming = claiming;
      receiving = receiving;
      sending = sending;
    })
counted-IsValid w claims messages claiming receiving sending v c m = record {
  placed = v.placed;
  sizes = v.sizes;
  used_at = v.used_at;
  claims = c ∙ v.claims;
  messages = m ∙ v.messages;
  pending_at = v.pending_at;
  in_queue = v.in_queue;
  once = v.once;
  in_order = v.in_order;
}
