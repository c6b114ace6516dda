-- ===== src/Ctos/Messages.antt =====
-- The message queues of common/ctos.c (`os_message_*`): elements that clients claim, send, receive
-- and release. The parts of a call under `message_mutex` run as one step, the waits and signals of
-- its semaphores as others.
pub mod Release
pub mod Stages
pub mod Protocol
pub mod Steps
pub mod Invariant
pub mod Registry
pub mod Balance
pub mod Entries
pub mod Indices
mod Tests
use my_common.Common.{
  ℕ, zero, suc, ◌+◌, ◌-◌, ◌*◌, ◌/◌, ◌%◌, Bool, true, false, not, ◌&&◌, Option, none, some, List, [],
  ◌∷◌, ◌++◌, set, replicate, ltb, leb, ◌==◌, if◌then◌else◌,
}
use my_common.Common.Words.{u32_mod, mul64, add64}

-- A `g_msg_queue_t` with the values of its semaphores and the `os_MsgElem_t` at its index: the
-- address of its elements, which of them are used, and the messages of its pending nodes.
pub record Messages : Type 0 where
  pub index : ℕ
  pub msg_semaphore : ℕ
  pub claim_semaphore : ℕ
  pub memory : ℕ
  pub used : List Bool
  pub pending : List ℕ
  pub element_size : ℕ
  pub no_elements : ℕ

-- A new queue.
abbrev pub new_messages : ℕ → ℕ → ℕ → ℕ → Messages
new_messages index memory element_size no_elements = record {
  index = index;
  msg_semaphore = 0;
  claim_semaphore = no_elements;
  memory = memory;
  used = replicate no_elements false;
  pending = [];
  element_size = element_size;
  no_elements = no_elements;
}

abbrev pub queue_nb_max : ℕ
queue_nb_max = 50

-- A wait that takes from a semaphore, where it can.
abbrev pub semaphore_take : ℕ → Option ℕ
semaphore_take zero = none
semaphore_take (suc n) = some n

abbrev pub next_claim : Option (ℕ × List Bool) → Option (ℕ × List Bool)
next_claim none = none
next_claim (some (i, us)) = some (suc i, true ∷ us)

-- The first element that is not used, and the elements once it is.
abbrev pub claim_unused : List Bool → Option (ℕ × List Bool)
claim_unused [] = none
claim_unused (false ∷ us) = some (0, true ∷ us)
claim_unused (true ∷ us) = next_claim (claim_unused us)

abbrev pub element_at : Messages → ℕ → ℕ
element_at q i = q.memory + i * q.element_size

abbrev pub claimed : Messages → Option (ℕ × List Bool) → Option ℕ × Messages
claimed q none = (none, q)
claimed q (some (i, us)) = (some (element_at q i), record q { used = us })

-- The part of os_message_claim_timeout behind its wait.
unfoldable pub claim_scan : Messages → Option ℕ × Messages
claim_scan q = claimed q (claim_unused q.used)

abbrev pub claim_taken : Messages → Option ℕ → Option ℕ × Messages
claim_taken q none = (none, q)
claim_taken q (some n) = claim_scan (record q { claim_semaphore = n })

-- os_message_claim_timeout that does not wait and is not interrupted.
unfoldable pub claim_timeout : Messages → Option ℕ × Messages
unfolding claim_scan
claim_timeout q =
    if ltb q.index queue_nb_max then claim_taken q (semaphore_take q.claim_semaphore) else (none, q)

-- The new node goes behind the pending ones.
unfoldable pub link_pending : ℕ → Messages → Messages
link_pending message q = record q { pending = q.pending ++ (message ∷ []) }

abbrev pub signal_message : Messages → Messages
signal_message q = record q { msg_semaphore = q.msg_semaphore + 1 }

-- os_message_send of a message that is not null; `has_memory` says whether there is a node for it.
unfoldable pub send : Bool → ℕ → Messages → Messages
unfolding link_pending
send has_memory message q =
    if ltb q.index queue_nb_max && has_memory then signal_message (link_pending message q) else q

abbrev pub unlinked : Messages → List ℕ → Option ℕ × Messages
unlinked q [] = (none, q)
unlinked q (message ∷ rest) = (some message, record q { pending = rest })

-- The part of os_message_receive_timeout behind its wait.
unfoldable pub receive_pending : Messages → Option ℕ × Messages
receive_pending q = unlinked q q.pending

abbrev pub receive_taken : Messages → Option ℕ → Option ℕ × Messages
receive_taken q none = (none, q)
receive_taken q (some n) = receive_pending (record q { msg_semaphore = n })

-- os_message_receive_timeout that does not wait and is not interrupted.
unfoldable pub receive_timeout : Messages → Option ℕ × Messages
unfolding receive_pending
receive_timeout q =
    if ltb q.index queue_nb_max then receive_taken q (semaphore_take q.msg_semaphore) else (none, q)

-- `(U32)Message - (U32)Elem_p->Memory_p` divided by the size.
abbrev pub index_of : Messages → ℕ → ℕ
index_of q message = (message % u32_mod - q.memory % u32_mod) / (q.element_size % u32_mod)

abbrev pub in_memory : Messages → ℕ → Bool
in_memory q message =
    leb (q.memory % u32_mod) (message % u32_mod)
    && ltb (message % u32_mod) (add64 (q.memory % u32_mod) (mul64 q.element_size q.no_elements))

-- os_message_release of a message that is not null; pointers are compared by their low 32 bits.
unfoldable pub release : ℕ → Messages → Messages
release message q =
    if ltb q.index queue_nb_max && in_memory q message
    then record q {
      used = set q.used (index_of q message) false;
      claim_semaphore = q.claim_semaphore + 1;
    }
    else q

-- os_message_query_num.
abbrev pub query_num : Messages → ℕ
query_num q = q.msg_semaphore
