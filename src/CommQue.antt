-- ===== src/CommQue.antt =====
-- common/comm_que.c: a ring of preallocated slots that producers and consumers take and give back.
-- Each function is the body that runs under the queue's mutex; the null-handle guards are in
-- `Handle`. A call that waits is given, in order, the states that it finds when it has the mutex
-- again.
pub mod Create
pub mod Handle
pub mod Index
pub mod Slots
pub mod Misuse
pub mod Ownership
pub mod Protocol
pub mod Refine
pub mod Wait
pub mod Wakeup
mod Tests
use my_common.Common.{
  ℕ, ◌+◌, ◌-◌, ◌%◌, Bool, true, false, not, ◌&&◌, ◌||◌, Option, none, some, List, [], ◌∷◌, leb,
  ◌==◌, if◌then◌else◌,
}
use my_common.Common.Words.{add32, sub32, mul64}

-- `CommQue_t` without its mutex, condition variables and buffer contents.
pub record CommQue : Type 0 where
  pub max_count : ℕ
  pub element_size : ℕ
  pub write : ℕ
  pub read : ℕ
  pub full_count : ℕ
  pub empty_count : ℕ
  pub is_destroyed : Bool

-- What the `int32_t` functions return: 0 and -1.
pub data Ret : Type 0 where
  success failure : Ret

-- The calls on the condition variables, which wake waiting threads.
pub data Signal : Type 0 where
  signal_full signal_empty broadcast_full broadcast_empty : Signal

-- An `int32_t` timeout: OSAL_TIMEOUT_NONE, OSAL_TIMEOUT_FOREVER, or milliseconds.
pub data Timeout : Type 0 where
  no_wait forever : Timeout
  within : ℕ → Timeout

-- The return of a wait, with the state that the thread then finds.
pub data Wake (S : Type 0) : Type 0 where
  woken timed_out : S → Wake S

-- A call that returned, or that still waits when the recorded wakes are used up.
pub data Outcome (S : Type 0) : Type 0 where
  returned : Option ℕ → S → Outcome S
  blocked : S → Outcome S

-- A pointer into the buffer is its offset in bytes.
abbrev pub slot_ptr : CommQue → ℕ → ℕ
slot_ptr q i = mul64 i q.element_size

abbrev pub state_at : {S : Type 0} → Wake S → S
state_at (woken q) = q
state_at (timed_out q) = q

module _ {S : Type 0} where
  -- One round of the waiting loop: `rest` is what the later rounds do.
  abbrev pub on_wake : Timeout → S → Wake S → Outcome S → Outcome S
  on_wake no_wait q w rest = returned none q
  on_wake forever q w rest = rest
  on_wake (within ms) q (timed_out q') rest = returned none q'
  on_wake (within ms) q (woken q') rest = rest

  -- The round for which no wake is recorded.
  abbrev pub on_last : Timeout → S → Outcome S
  on_last no_wait q = returned none q
  on_last forever q = blocked q
  on_last (within ms) q = blocked q

  abbrev pub finish : Option ℕ × S → Outcome S
  finish (p, q) = returned p q

  -- The loop of `CommQue_GetFull` and `CommQue_GetEmpty`, over its test and what follows it, in a
  -- memory `S` that holds the queue.
  unfoldable pub wait_loop :
      (S → Bool) → (S → Option ℕ × S) → Timeout → List (Wake S) → S → Outcome S
  wait_loop waits take t [] q = if waits q then on_last t q else finish (take q)
  wait_loop waits take t (w ∷ ws) q =
      let rest = wait_loop waits take t ws (state_at w) in
      if waits q then on_wake t q w rest else finish (take q)

unfoldable pub waits_full : CommQue → Bool
waits_full q = q.full_count == 0 && not q.is_destroyed

unfoldable pub waits_empty : CommQue → Bool
waits_empty q = q.empty_count == 0 && not q.is_destroyed

-- What `CommQue_GetFull` does behind its loop.
unfoldable pub take_full : CommQue → Option ℕ × CommQue
take_full q = if q.is_destroyed then (none, q) else (
  some (slot_ptr q q.read),
  record q { read = add32 q.read 1 % q.max_count; full_count = sub32 q.full_count 1 },
)

unfoldable pub take_empty : CommQue → Option ℕ × CommQue
take_empty q = if q.is_destroyed then (none, q) else (
  some (slot_ptr q q.write),
  record q { write = add32 q.write 1 % q.max_count; empty_count = sub32 q.empty_count 1 },
)

unfoldable pub get_full : Timeout → List (Wake CommQue) → CommQue → Outcome CommQue
unfolding wait_loop waits_full take_full
get_full = wait_loop waits_full take_full

unfoldable pub get_empty : Timeout → List (Wake CommQue) → CommQue → Outcome CommQue
unfolding wait_loop waits_empty take_empty
get_empty = wait_loop waits_empty take_empty

unfoldable pub peek_full : CommQue → Option ℕ
peek_full q = if q.full_count == 0 || q.is_destroyed then none else some (slot_ptr q q.read)

-- The element is only tested for null; which slot it is plays no part.
unfoldable pub put_empty : Option ℕ → CommQue → Ret × List Signal × CommQue
put_empty none q = (failure, [], q)
put_empty (some p) q =
    (success, signal_empty ∷ [], record q { empty_count = add32 q.empty_count 1 })

unfoldable pub put_full : Option ℕ → CommQue → Ret × List Signal × CommQue
put_full none q = (failure, [], q)
put_full (some p) q = (success, signal_full ∷ [], record q { full_count = add32 q.full_count 1 })

-- (index + maxCount - 1) % maxCount in `uint32_t`.
abbrev pub step_back : ℕ → ℕ → ℕ
step_back i n = sub32 (add32 i n) 1 % n

unfoldable pub put_full_front : Option ℕ → CommQue → Ret × List Signal × CommQue
put_full_front none q = (failure, [], q)
put_full_front (some p) q =
    if leb q.max_count q.full_count || q.is_destroyed then (failure, [], q) else (
      success,
      signal_full ∷ [],
      record q { read = step_back q.read q.max_count; full_count = add32 q.full_count 1 },
    )

unfoldable pub put_empty_front : Option ℕ → CommQue → Ret × List Signal × CommQue
put_empty_front none q = (failure, [], q)
put_empty_front (some p) q =
    if leb q.max_count q.empty_count || q.is_destroyed then (failure, [], q) else (
      success,
      signal_empty ∷ [],
      record q { write = step_back q.write q.max_count; empty_count = add32 q.empty_count 1 },
    )

unfoldable pub clear : CommQue → List Signal × CommQue
clear q = (
  broadcast_empty ∷ [],
  record q { write = 0; read = 0; full_count = 0; empty_count = q.max_count },
)

-- The part of `CommQue_Delete` under the mutex; what it then frees is `Create.delete_events`.
unfoldable pub mark_destroyed : CommQue → List Signal × CommQue
mark_destroyed q = (broadcast_full ∷ broadcast_empty ∷ [], record q { is_destroyed = true })

unfoldable pub is_full : CommQue → Bool
is_full q = q.full_count == q.max_count

unfoldable pub is_empty : CommQue → Bool
is_empty q = q.full_count == 0
