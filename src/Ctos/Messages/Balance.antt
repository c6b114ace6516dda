-- ===== src/Ctos/Messages/Balance.antt =====
-- That a message queue of common/ctos.c releases all that it acquired.
use my_common.Common.{
  ℕ, zero, suc, Bool, true, false, Option, none, some, List, [], ◌∷◌, ◌++◌, ltb, ◌&&◌, Bool-cases,
  inl, inr, ◌==◌, ◌≡◌, refl, ap, ap₂, ◌∙◌, arith,
}
use my_common.Common.Words.{mul64}
use my_common.Common.Events.{Event, acquire, release, drop_one, held_after}
use mathlib.Core.List.{append_assoc}
use my_common.Ctos.Messages.{queue_nb_max}
use my_common.Ctos.Messages.Registry.{
  Semaphore, msg_semaphore, claim_semaphore, Resource, node, handle, memory, used, pending, block,
  semaphore, Platform, semaphore_create, semaphore_delete, Queue, Registry, Created, new_queue,
  first_free, create_at, create_with, create_queue, free_pending, delete_queue,
}

abbrev same_semaphore : Semaphore → Semaphore → Bool
same_semaphore msg_semaphore msg_semaphore = true
same_semaphore msg_semaphore claim_semaphore = false
same_semaphore claim_semaphore msg_semaphore = false
same_semaphore claim_semaphore claim_semaphore = true

abbrev kind : Resource → ℕ
kind node = 0
kind handle = 1
kind memory = 2
kind used = 3
kind pending = 4
kind (block msg_semaphore) = 5
kind (semaphore msg_semaphore) = 6
kind (block claim_semaphore) = 7
kind (semaphore claim_semaphore) = 8

abbrev pub same : Resource → Resource → Bool
same a b = kind a == kind b

-- The nodes of the messages that were sent and not received.
abbrev pub send_events : ℕ → List (Event Resource)
send_events zero = []
send_events (suc n) = acquire pending ∷ send_events n

-- Nothing is held when the creation fails, nor behind the deletion of the queue that it gives.
abbrev pub IsBalanced : ℕ → Created → Type 0
IsBalanced waiting (none, r, es) = held_after same es [] ≡ some []
IsBalanced waiting (some q, r, es) =
    held_after same (es ++ (send_events waiting ++ (delete_queue q waiting r).1)) [] ≡ some []

abbrev nodes : ℕ → List Resource → List Resource
nodes zero l = l
nodes (suc n) l = pending ∷ nodes n l

nodes-pending : (n : ℕ) (l : List Resource) → nodes n (pending ∷ l) ≡ pending ∷ nodes n l
nodes-pending zero l = refl
nodes-pending (suc n) l = ap (λ x. pending ∷ x) (nodes-pending n l)

held-sent :
    (n : ℕ) (es : List (Event Resource)) (l : List Resource)
    → held_after same (send_events n ++ es) l ≡ held_after same es (nodes n l)
held-sent zero es l = refl
held-sent (suc n) es l = held-sent n es (pending ∷ l) ∙ ap (held_after same es) (nodes-pending n l)

held-freed :
    (n : ℕ) (es : List (Event Resource)) (l : List Resource)
    → held_after same (free_pending n ++ es) (nodes n l) ≡ held_after same es l
held-freed zero es l = refl
held-freed (suc n) es l = held-freed n es l

drop-nodes :
    (r : Resource) (n : ℕ) (l l' : List Resource)
    → same r pending ≡ false
    → drop_one same r l ≡ some l'
    → drop_one same r (nodes n l) ≡ some (nodes n l')
drop-nodes r zero l l' other h = h
drop-nodes r (suc n) l l' other h = rw (other, drop-nodes r n l l' other h) refl

-- A release behind the nodes of pending messages.
held-past :
    (r : Resource) (n : ℕ) (es : List (Event Resource)) (l l' : List Resource)
    → same r pending ≡ false
    → drop_one same r l ≡ some l'
    → held_after same (release r ∷ es) (nodes n l) ≡ held_after same es (nodes n l')
held-past r n es l l' other h = ground (arith, drop-nodes r n l l' other h)

-- What a semaphore holds, if it is there.
abbrev semaphore_held : Bool → Semaphore → List Resource
semaphore_held true s = semaphore s ∷ block s ∷ []
semaphore_held false s = []

held-created :
    (p : Platform) (s : Semaphore) (es : List (Event Resource)) (l : List Resource)
    → held_after same ((semaphore_create p s).1 ++ es) l
      ≡ held_after same es (semaphore_held (semaphore_create p s).0 s ++ l)
unfolding semaphore_create
held-created p msg_semaphore es l = ground arith
held-created p claim_semaphore es l = ground arith

abbrev parts : List Resource
parts = used ∷ memory ∷ handle ∷ node ∷ []

abbrev freed_parts : List (Event Resource)
freed_parts = release used ∷ release memory ∷ release handle ∷ release node ∷ []

other_kind :
    (s : Semaphore) → (same (semaphore s) pending ≡ false) × (same (block s) pending ≡ false)
other_kind msg_semaphore = (refl, refl)
other_kind claim_semaphore = (refl, refl)

-- The release of a semaphore and its block that stand behind `before`.
deleted-past :
    (s : Semaphore) (before : List Resource) (n : ℕ) (es : List (Event Resource))
    (l : List Resource)
    → drop_one same (semaphore s) (before ++ (semaphore s ∷ block s ∷ l))
      ≡ some (before ++ (block s ∷ l))
    → drop_one same (block s) (before ++ (block s ∷ l)) ≡ some (before ++ l)
    → held_after same
        (semaphore_delete true s ++ es)
        (nodes n (before ++ (semaphore s ∷ block s ∷ l)))
      ≡ held_after same es (nodes n (before ++ l))
unfolding semaphore_delete
deleted-past s before n es l first second =
    held-past (semaphore s) n (release (block s) ∷ es) (before ++ (semaphore s ∷ block s ∷ l))
      (before ++ (block s ∷ l)) (other_kind s).0 first
    ∙ held-past (block s) n es (before ++ (block s ∷ l)) (before ++ l) (other_kind s).1 second

deleted-msg :
    (m c : Bool) (n : ℕ) (es : List (Event Resource)) (l : List Resource)
    → held_after same
        (semaphore_delete m msg_semaphore ++ es)
        (nodes n (semaphore_held c claim_semaphore ++ (semaphore_held m msg_semaphore ++ l)))
      ≡ held_after same es (nodes n (semaphore_held c claim_semaphore ++ l))
unfolding semaphore_delete
deleted-msg false c n es l = refl
deleted-msg true true n es l =
    deleted-past msg_semaphore (semaphore_held true claim_semaphore) n es l refl refl
deleted-msg true false n es l = deleted-past msg_semaphore [] n es l refl refl

deleted-claim :
    (c : Bool) (n : ℕ) (es : List (Event Resource)) (l : List Resource)
    → held_after same
        (semaphore_delete c claim_semaphore ++ es)
        (nodes n (semaphore_held c claim_semaphore ++ l))
      ≡ held_after same es (nodes n l)
unfolding semaphore_delete
deleted-claim false n es l = refl
deleted-claim true n es l = deleted-past claim_semaphore [] n es l refl refl

deleted-parts :
    (m c : Bool) (n : ℕ)
    → held_after same
        (semaphore_delete m msg_semaphore
          ++ (semaphore_delete c claim_semaphore ++ (free_pending n ++ freed_parts)))
        (nodes n (semaphore_held c claim_semaphore ++ (semaphore_held m msg_semaphore ++ parts)))
      ≡ some []
deleted-parts m c n =
    deleted-msg m c n (semaphore_delete c claim_semaphore ++ (free_pending n ++ freed_parts)) parts
    ∙ deleted-claim c n (free_pending n ++ freed_parts) parts
    ∙ held-freed n freed_parts parts

deleted-events :
    (q : Queue) (n : ℕ) (r : Registry)
    → ltb q.index queue_nb_max ≡ true
    → (delete_queue q n r).1
      ≡ semaphore_delete q.has_msg msg_semaphore
        ++ (semaphore_delete q.has_claim claim_semaphore ++ (free_pending n ++ freed_parts))
unfolding delete_queue
deleted-events q n r live = ground (arith)

-- The creation and the deletion of a queue that is made.
made-released :
    (p : Platform) (q : Queue) (n : ℕ) (r : Registry)
    → ltb q.index queue_nb_max ≡ true
    → q.has_msg ≡ (semaphore_create p msg_semaphore).0
    → q.has_claim ≡ (semaphore_create p claim_semaphore).0
    → held_after same
        (((semaphore_create p msg_semaphore).1 ++ (semaphore_create p claim_semaphore).1)
          ++ (send_events n ++ (delete_queue q n r).1))
        parts
      ≡ some []
made-released p q n r live has_msg has_claim =
    let msg = semaphore_create p msg_semaphore in
    let claim = semaphore_create p claim_semaphore in
    let freed =
      semaphore_delete msg.0 msg_semaphore
      ++ (semaphore_delete claim.0 claim_semaphore ++ (free_pending n ++ freed_parts)) in
    let same_freed : (delete_queue q n r).1 ≡ freed =
      deleted-events q n r live
      ∙ ap₂
          (λ m c.
            semaphore_delete m msg_semaphore
            ++ (semaphore_delete c claim_semaphore ++ (free_pending n ++ freed_parts)))
          has_msg has_claim in
    let held =
      semaphore_held claim.0 claim_semaphore ++ (semaphore_held msg.0 msg_semaphore ++ parts) in
    ap (λ d. held_after same ((msg.1 ++ claim.1) ++ (send_events n ++ d)) parts) same_freed
    ∙ ap (λ es. held_after same es parts) (append_assoc msg.1 claim.1 (send_events n ++ freed))
    ∙ held-created p msg_semaphore (claim.1 ++ (send_events n ++ freed)) parts
    ∙ held-created p claim_semaphore (send_events n ++ freed)
        (semaphore_held msg.0 msg_semaphore ++ parts)
    ∙ held-sent n freed held
    ∙ deleted-parts msg.0 claim.0 n

create_at-IsBalanced :
    (p : Platform) (h a waiting : ℕ) (r : Registry) → IsBalanced waiting (create_at p h a r)
unfolding create_at
create_at-IsBalanced p h a waiting r =
    elim (Bool-cases (ltb (first_free r.memories) queue_nb_max && p.used_ok)) [
      | inl y ↦ rw y (
          made-released p (new_queue p h (first_free r.memories)) waiting _ (ground arith) refl
            refl)
      | inr n ↦ rw n refl
    ]

create_with-IsBalanced :
    (p : Platform) (waiting : ℕ) (r : Registry) (h a : Option ℕ)
    → IsBalanced waiting (create_with p r h a)
create_with-IsBalanced p waiting r none a = refl
create_with-IsBalanced p waiting r (some h) none = refl
create_with-IsBalanced p waiting r (some h) (some a) = create_at-IsBalanced p h a waiting r

-- Whatever requests the platform refuses, os_message_create_queue releases all that it acquired
-- before it returns NULL; and if it returns a queue, os_message_delete_queue with any number of
-- pending messages releases all that is held, each part once.
pub create_queue-IsBalanced :
    (p : Platform) (size n waiting : ℕ) (r : Registry)
    → IsBalanced waiting (create_queue p size n r)
unfolding create_queue
create_queue-IsBalanced p size n waiting r = elim (Bool-cases p.node_ok) [
  | inl y ↦ rw y (create_with-IsBalanced p waiting r p.handle_at (p.memory_at (mul64 size n)))
  | inr m ↦ rw m refl
]
