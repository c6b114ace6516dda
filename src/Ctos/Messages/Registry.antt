-- ===== src/Ctos/Messages/Registry.antt =====
-- Creation and deletion of the message queues of common/ctos.c: the entries of `MessageArray`, the
-- list of queues, and what is acquired and released, on every path. A call runs as one step.
use my_common.Common.{
  ℕ, zero, suc, Bool, true, false, ◌&&◌, Option, none, some, List, [], ◌∷◌, ◌++◌, set, replicate,
  length, ltb, ◌==◌, if◌then◌else◌,
}
use my_common.Common.Words.{mul64}
use my_common.Common.Events.{Event, acquire, release}
use my_common.Ctos.Messages.{queue_nb_max}

-- A semaphore has a block and the semaphore in it; a queue has a node of the list, its
-- `g_msg_queue_t`, its elements, their flags, and nodes of pending messages.
pub data Semaphore : Type 0 where
  msg_semaphore claim_semaphore : Semaphore

pub data Resource : Type 0 where
  node handle memory used pending : Resource
  block semaphore : Semaphore → Resource

-- What the platform grants: a block and an initialised semaphore; and the parts of a queue, with the
-- addresses of the `g_msg_queue_t` and, for the bytes asked for, of the elements.
pub record Platform : Type 0 where
  pub node_ok : Bool
  pub handle_at : Option ℕ
  pub memory_at : ℕ → Option ℕ
  pub used_ok : Bool
  pub block_ok : Semaphore → Bool
  pub semaphore_ok : Semaphore → Bool

-- os_semaphore_create: whether it gives a semaphore, and what it acquires and releases.
unfoldable pub semaphore_create : Platform → Semaphore → Bool × List (Event Resource)
semaphore_create p s =
    if p.block_ok s
    then if p.semaphore_ok s
      then (true, acquire (block s) ∷ acquire (semaphore s) ∷ [])
      else (false, acquire (block s) ∷ release (block s) ∷ [])
    else (false, [])

-- os_semaphore_delete of what os_semaphore_create gave, or of null.
unfoldable pub semaphore_delete : Bool → Semaphore → List (Event Resource)
semaphore_delete true s = release (semaphore s) ∷ release (block s) ∷ []
semaphore_delete false s = []

-- A queue of `MessageQueueList_p`: its address, its index, and which of its semaphores it has.
pub record Queue : Type 0 where
  pub address : ℕ
  pub index : ℕ
  pub has_msg : Bool
  pub has_claim : Bool

-- `Memory_p` of each entry of `MessageArray`, and `MessageQueueList_p`.
pub record Registry : Type 0 where
  pub memories : List (Option ℕ)
  pub queues : List Queue

-- Init_Msg_Queues.
abbrev pub init_msg_queues : Registry
init_msg_queues = record { memories = replicate queue_nb_max none; queues = [] }

-- The first entry without memory, or the number of entries.
abbrev pub first_free : List (Option ℕ) → ℕ
first_free [] = 0
first_free (none ∷ ms) = 0
first_free (some a ∷ ms) = suc (first_free ms)

-- The queue, if there is one, the registry, and what was acquired and released.
abbrev pub Created : Type 0
Created = Option Queue × Registry × List (Event Resource)

abbrev pub new_queue : Platform → ℕ → ℕ → Queue
new_queue p h i = record {
  address = h;
  index = i;
  has_msg = (semaphore_create p msg_semaphore).0;
  has_claim = (semaphore_create p claim_semaphore).0;
}

-- The part of os_message_create_queue_timeout behind its three allocations.
unfoldable pub create_at : Platform → ℕ → ℕ → Registry → Created
unfolding semaphore_create
create_at p h a r =
    let i = first_free r.memories in
    let three = acquire node ∷ acquire handle ∷ acquire memory ∷ [] in
    if ltb i queue_nb_max && p.used_ok
    then (
      some (new_queue p h i),
      record { memories = set r.memories i (some a); queues = r.queues ++ (new_queue p h i ∷ []) },
      three
          ++ (acquire used
              ∷ ((semaphore_create p msg_semaphore).1 ++ (semaphore_create p claim_semaphore).1)),
    )
    else (none, r, three ++ (release handle ∷ release memory ∷ release node ∷ []))

abbrev pub create_with : Platform → Registry → Option ℕ → Option ℕ → Created
create_with p r none a = (none, r, acquire node ∷ release node ∷ [])
create_with p r (some h) none =
    (none, r, acquire node ∷ acquire handle ∷ release handle ∷ release node ∷ [])
create_with p r (some h) (some a) = create_at p h a r

-- os_message_create_queue, of elements of a size.
unfoldable pub create_queue : Platform → ℕ → ℕ → Registry → Created
unfolding create_at
create_queue p size n r =
    if p.node_ok then create_with p r p.handle_at (p.memory_at (mul64 size n)) else (none, r, [])

-- The loop that takes a queue out of the list.
abbrev pub remove_queue : ℕ → List Queue → List Queue
remove_queue h [] = []
remove_queue h (q ∷ qs) = let rest = remove_queue h qs in if q.address == h then qs else q ∷ rest

abbrev pub free_pending : ℕ → List (Event Resource)
free_pending zero = []
free_pending (suc n) = release pending ∷ free_pending n

-- os_message_delete_queue of a queue of the list, with a number of pending messages.
unfoldable pub delete_queue : Queue → ℕ → Registry → Registry × List (Event Resource)
unfolding semaphore_delete
delete_queue q waiting r =
    if ltb q.index queue_nb_max
    then (
      record { memories = set r.memories q.index none; queues = remove_queue q.address r.queues },
      semaphore_delete q.has_msg msg_semaphore
          ++ semaphore_delete q.has_claim claim_semaphore
          ++ free_pending waiting
          ++ (release used ∷ release memory ∷ release handle ∷ release node ∷ []),
    )
    else (r, [])

-- os_message_delete_queue2: also the messages that the function is called with, in order.
unfoldable pub delete_queue2 :
    Queue → Bool → List ℕ → Registry → List ℕ × Registry × List (Event Resource)
unfolding delete_queue
delete_queue2 q has_func messages r =
    let deleted = delete_queue q (length messages) r in
    (if has_func && ltb q.index queue_nb_max then messages else [], deleted.0, deleted.1)
