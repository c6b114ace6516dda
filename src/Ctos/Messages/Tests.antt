-- ===== src/Ctos/Messages/Tests.antt =====
-- Concrete runs of the message queues of common/ctos.c.
use my_common.Common.{
  ◌+◌, Bool, true, false, Option, none, some, [], ◌∷◌, ◌++◌, All, length, ltb, get_elem?, ◌≡◌, refl,
  arith,
}
use my_common.Common.Distinct.{DistinctBy}
use my_common.Ctos.Messages.{
  Messages, new_messages, queue_nb_max, claim_timeout, send, receive_timeout, release,
}
use my_common.Ctos.Messages.Release.{release-Freed}
use my_common.Ctos.Messages.Stages.{count_unclaimed}
use my_common.Ctos.Messages.Protocol.{
  World, here, next, waited_claim, initial, claims_answered, receives_answered,
}
use my_common.Ctos.Messages.Invariant.{reachable-answered}
use my_common.Ctos.Messages.Registry.{
  Semaphore, msg_semaphore, claim_semaphore, Platform, Queue, Registry, init_msg_queues, first_free,
  create_queue,
}
use my_common.Ctos.Messages.Balance.{IsBalanced, create_queue-IsBalanced}
use my_common.Ctos.Messages.Entries.{is_taken}
use my_common.Ctos.Messages.Indices.{Changes, reachable-own}
use my_common.Ctos.Messages.Indices as Own

-- Three elements of 16 bytes.
abbrev three : Messages
three = new_messages 0 1000 16 3

test_claim : (claim_timeout (claim_timeout three).1).0 ≡ some 1016
unfolding claim_timeout
test_claim = refl

test_fifo : (receive_timeout (send true 1000 (send true 1016 three))).0 ≡ some 1016
unfolding receive_timeout send
test_fifo = refl

-- Without memory for its node a message is lost.
test_lost : send false 1000 three ≡ three
unfolding send
test_lost = refl

test_released :
    (release 1020 (claim_timeout (claim_timeout three).1).1).used ≡ true ∷ false ∷ false ∷ []
unfolding release claim_timeout
test_released = refl

-- A block whose second element stands where the low 32 bits of addresses begin again.
abbrev over : Messages
over = new_messages 0 4294967280 16 3

release-Freed_example : release 4294967296 over ≡ over
release-Freed_example = release-Freed over 1 (omega arith) (omega arith) (omega arith) (omega arith)

abbrev waited : World
waited = record (initial 0 1000 16 3) { que = record three { claim_semaphore = 2 }; claiming = 1 }

reachable-answered_example :
    (claims_answered waited ≡ true)
    × (receives_answered waited ≡ true)
    × (waited.received ++ waited.que.pending ≡ waited.sent)
    × (waited.que.claim_semaphore + waited.claiming ≡ count_unclaimed waited.stages)
reachable-answered_example =
    reachable-answered 0 1000 16 3 (omega arith, omega arith, omega arith, omega arith)
      (next here (waited_claim (omega arith) refl))

-- A platform without room for the second semaphore.
abbrev one_semaphore : Semaphore → Bool
one_semaphore msg_semaphore = true
one_semaphore claim_semaphore = false

abbrev platform : Platform
platform = record {
  node_ok = true;
  handle_at = some 500;
  memory_at = λ n. some 1000;
  used_ok = true;
  block_ok = λ s. true;
  semaphore_ok = one_semaphore;
}

create_queue-IsBalanced_example : IsBalanced 2 (create_queue platform 16 3 init_msg_queues)
create_queue-IsBalanced_example = create_queue-IsBalanced platform 16 3 2 init_msg_queues

abbrev one_queue : Registry
one_queue = (create_queue platform 16 3 init_msg_queues).1

reachable-own_example :
    DistinctBy Queue.index one_queue.queues
    × All (λ q. is_taken (get_elem? one_queue.memories q.index) ≡ true) one_queue.queues
    × (ltb (first_free one_queue.memories) queue_nb_max
        ≡ ltb (length one_queue.queues) queue_nb_max)
reachable-own_example = reachable-own (Own.next Own.here (Own.created platform 16 3 tt refl))

-- The queue that lacks a semaphore is given nevertheless.
abbrev has_claim : Option Queue → Bool
has_claim none = true
has_claim (some q) = q.has_claim

test_no_semaphore : has_claim (create_queue platform 16 3 init_msg_queues).0 ≡ false
unfolding create_queue
test_no_semaphore = refl
