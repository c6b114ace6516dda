-- ===== src/Ctos/Messages/Protocol.antt =====
-- Clients of a message queue of common/ctos.c as a step relation: the waits, the parts of the calls
-- under the mutex and the signals of any number of threads in any order.
use my_common.Common.{
  ℕ, ◌+◌, ◌-◌, ◌*◌, ◌%◌, ◌^◌, ◌≤◌, ◌<◌, Bool, true, false, ◌||◌, Option, none, some, List, [], ◌∷◌,
  ◌++◌, map, length, set, replicate, get_elem?, All, ◌==◌, ◌≡◌,
}
use my_common.Common.Distinct.{DistinctBy}
use my_common.Ctos.Messages.{
  Messages, new_messages, queue_nb_max, element_at, claim_unused, claim_scan, link_pending,
  signal_message, receive_pending, release,
}
use my_common.Ctos.Messages.Stages.{Stage, unclaimed, held, queued, lost, is_used, count_unclaimed}

-- A queue, and what the code does not record: how many threads are past the wait of a claim and
-- of a receive, and before the signal of a send; the stage of each element; the elements of the
-- pending messages; and the messages sent and received, in order.
pub record World : Type 0 where
  pub que : Messages
  pub claiming : ℕ
  pub receiving : ℕ
  pub sending : ℕ
  pub stages : List Stage
  pub queue : List ℕ
  pub sent : List ℕ
  pub received : List ℕ

-- The stages behind a search that gave an element's number, or nothing.
abbrev pub after_claim : Option (ℕ × List Bool) → List Stage → List Stage
after_claim none ss = ss
after_claim (some (i, us)) ss = set ss i held

abbrev pub first_held : List ℕ → List Stage → List Stage
first_held [] ss = ss
first_held (i ∷ is) ss = set ss i held

abbrev pub rest_of {ℓ} : {A : Type ℓ} → List A → List A
rest_of [] = []
rest_of (x ∷ xs) = xs

abbrev pub one_of {ℓ} : {A : Type ℓ} → Option A → List A
one_of none = []
one_of (some x) = x ∷ []

-- What a receive makes of a state with the elements of the pending messages.
abbrev pub after_receive : World → Option ℕ × Messages → List ℕ → World
after_receive w (message, q) is = record w {
  que = q;
  receiving = w.receiving - 1;
  stages = first_held is w.stages;
  queue = rest_of is;
  received = w.received ++ one_of message;
}

-- A client sends and releases only elements that it holds.
pub data Step (w u : World) : Type 0 where
  waited_claim :
      0 < w.que.claim_semaphore
      → u ≡ record w {
        que = record (w.que) { claim_semaphore = w.que.claim_semaphore - 1 };
        claiming = w.claiming + 1;
      }
      → Step w u
  scanned :
      0 < w.claiming
      → u ≡ record w {
        que = (claim_scan w.que).1;
        claiming = w.claiming - 1;
        stages = after_claim (claim_unused w.que.used) w.stages;
      }
      → Step w u
  linked :
      (i : ℕ)
      → get_elem? w.stages i ≡ some held
      → u ≡ record w {
        que = link_pending (element_at w.que i) w.que;
        sending = w.sending + 1;
        stages = set w.stages i queued;
        queue = w.queue ++ (i ∷ []);
        sent = w.sent ++ (element_at w.que i ∷ []);
      }
      → Step w u
  dropped :
      (i : ℕ)
      → get_elem? w.stages i ≡ some held
      → u ≡ record w { stages = set w.stages i lost }
      → Step w u
  signalled :
      0 < w.sending
      → u ≡ record w { que = signal_message w.que; sending = w.sending - 1 }
      → Step w u
  waited_receive :
      0 < w.que.msg_semaphore
      → u ≡ record w {
        que = record (w.que) { msg_semaphore = w.que.msg_semaphore - 1 };
        receiving = w.receiving + 1;
      }
      → Step w u
  unlinked_first : 0 < w.receiving → u ≡ after_receive w (receive_pending w.que) w.queue → Step w u
  released :
      (i : ℕ)
      → get_elem? w.stages i ≡ some held
      → u ≡ record w { que = release (element_at w.que i) w.que; stages = set w.stages i unclaimed }
      → Step w u

pub data Reach (s : World) : World → Type 0 where
  here : Reach s s
  next : {t u : World} → Reach s t → Step t u → Reach s u

-- The block of elements is smaller than 2^32 bytes, and the low 32 bits of its addresses do not wrap.
abbrev pub IsPlaced : Messages → Type 0
IsPlaced q =
    (q.index < queue_nb_max)
    × (0 < q.element_size)
    × (q.element_size * q.no_elements < 2 ^ 32)
    × (q.memory % 2 ^ 32 + q.element_size * q.no_elements ≤ 2 ^ 32)

-- The counts of the semaphores with the threads on their way are those of the elements.
pub record IsValid (w : World) : Type 0 where
  pub placed : IsPlaced w.que
  pub sizes : length w.stages ≡ w.que.no_elements
  pub used_at : w.que.used ≡ map is_used w.stages
  pub claims : w.que.claim_semaphore + w.claiming ≡ count_unclaimed w.stages
  pub messages : w.que.msg_semaphore + w.receiving + w.sending ≡ length w.queue
  pub pending_at : w.que.pending ≡ map (element_at w.que) w.queue
  pub in_queue : All (λ i. get_elem? w.stages i ≡ some queued) w.queue
  pub once : DistinctBy (λ i. i) w.queue
  pub in_order : w.received ++ w.que.pending ≡ w.sent

-- A new queue, before any call.
abbrev pub initial : ℕ → ℕ → ℕ → ℕ → World
initial index memory element_size no_elements = record {
  que = new_messages index memory element_size no_elements;
  claiming = 0;
  receiving = 0;
  sending = 0;
  stages = replicate no_elements unclaimed;
  queue = [];
  sent = [];
  received = [];
}

abbrev is_unclaimed : Option Stage → Bool
is_unclaimed (some unclaimed) = true
is_unclaimed (some held) = false
is_unclaimed (some queued) = false
is_unclaimed (some lost) = false
is_unclaimed none = false

abbrev pub finds_unclaimed : Option (ℕ × List Bool) → List Stage → Bool
finds_unclaimed none ss = false
finds_unclaimed (some (i, us)) ss = is_unclaimed (get_elem? ss i)

abbrev pub is_some {ℓ} : {A : Type ℓ} → Option A → Bool
is_some none = false
is_some (some x) = true

-- A thread past its wait finds an element that no client has and that is not pending; or a message.
abbrev pub claims_answered : World → Bool
claims_answered w = (w.claiming == 0) || finds_unclaimed (claim_unused w.que.used) w.stages

abbrev pub receives_answered : World → Bool
receives_answered w = (w.receiving == 0) || is_some (receive_pending w.que).0
