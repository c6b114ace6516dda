-- ===== src/ModuleManager/Dispatch.antt =====
-- `framework_send_message` and `process_framework_message_queue` of common/module_manager.c, with
-- the message queue as the slots of one CommQue and the bytes that they hold.
use my_common.Common.{
  ℕ, zero, suc, Bool, true, false, not, ◌||◌, ◌&&◌, Option, none, some, List, [], ◌∷◌, ◌++◌, map,
  ltb, ◌==◌, if◌then◌else◌,
}
use my_common.Common.StateCode.{
  StateCode, no_error, invalid_param, invalid_handle, allocation_failure, time_out,
}
use my_common.CommQue.{
  CommQue, Timeout, no_wait, Wake, Outcome, returned, blocked, wait_loop, waits_full, waits_empty,
  take_full, take_empty, put_full, put_empty,
}
use my_common.ModuleManager.{Module, Context, get_module_by_id, is_found, handlers_called}
use my_common.ModuleManager.Message.{
  CopyType, shallow, deep, ModuleMsg, Bytes, layout, read_msg, copy_msg,
}

-- The message queue: the ring, and the bytes of the slot at each pointer.
pub record SlotQueue : Type 0 where
  pub que : CommQue
  pub slots : ℕ → Bytes

abbrev pub on_ring : (CommQue → Option ℕ × CommQue) → SlotQueue → Option ℕ × SlotQueue
on_ring f q = let (p, c) = f q.que in (p, record q { que = c })

abbrev pub slot_write : (ℕ → Bytes) → ℕ → Bytes → ℕ → Bytes
slot_write slots p b a = if a == p then b else slots a

-- A send that returned its code and freed the copy of the data at the given addresses, or that
-- still waits.
pub data SendResult : Type 0 where
  sent : StateCode → List ℕ → SlotQueue → SendResult
  waiting : SlotQueue → SendResult

-- Behind the slot's arrival, `msg_queue_send` fills it and puts it full, which always succeeds.
unfoldable pub fill_slot : Bytes → ℕ → SlotQueue → SlotQueue
unfolding put_full
fill_slot b p q = record {
  que = (put_full (some p) q.que).2;
  slots = slot_write q.slots p (copy_msg b (q.slots p));
}

-- `msg_queue_send` on the bytes at its message: what a failure frees is the caller's.
abbrev pub send_into : List ℕ → Bytes → Outcome SlotQueue → SendResult
send_into freed b (blocked q) = waiting q
send_into freed b (returned none q) = sent time_out freed q
send_into freed b (returned (some p) q) = sent no_error [] (fill_slot b p q)

unfoldable pub send_bytes :
    Timeout → List (Wake SlotQueue) → List ℕ → Bytes → SlotQueue → SendResult
unfolding wait_loop waits_empty take_empty fill_slot
send_bytes t ws freed b q =
    send_into freed b (wait_loop (λ s. waits_empty s.que) (on_ring take_empty) t ws q)

-- `deep_copy_data`: `memory` is what its `malloc` gives, and NULL is 0.
unfoldable pub deep_copy_data : ℕ → ℕ → ℕ → ℕ
deep_copy_data memory src len = if src == 0 || len == 0 then 0 else memory

abbrev pub payload_of : CopyType → ℕ → ℕ → ℕ → ℕ
payload_of deep memory src len = deep_copy_data memory src len
payload_of shallow memory src len = src

-- What a failed send frees: the copy, where there is one.
abbrev pub freed_copy : CopyType → ℕ → List ℕ
freed_copy deep p = if p == 0 then [] else p ∷ []
freed_copy shallow p = []

abbrev pub is_deep : CopyType → Bool
is_deep deep = true
is_deep shallow = false

-- `framework_send_message` of the message `m`, whose data is the caller's; `memory` is what `malloc`
-- gives for a copy, `beyond` what lies behind the message on the stack.
unfoldable pub send_message :
    Timeout → List (Wake SlotQueue) → ℕ → Bytes → ModuleMsg → Context → SlotQueue → SendResult
send_message t ws memory beyond m c q =
    let body = payload_of m.copy_type memory m.payload m.data_len in
    if m.sender == 0
    then sent invalid_param [] q
    else if not c.is_running || not c.has_queue
    then sent invalid_handle [] q
    else if not (is_found (get_module_by_id c m.sender))
    then sent invalid_param [] q
    else if is_deep m.copy_type && body == 0 && ltb 0 m.data_len
    then sent allocation_failure [] q
    else send_bytes t ws (freed_copy m.copy_type body) (layout (record m { payload = body }) beyond)
        q

-- A call of a handler: the module and the function.
abbrev pub Call : Type 0
Call = ℕ × ℕ

abbrev pub module_calls : ℕ → Module → List Call
module_calls t m = map (λ (h : ℕ). (m.id, h)) (handlers_called t m.msg_handlers)

abbrev pub broadcast_calls : ℕ → List Module → List Call
broadcast_calls t [] = []
broadcast_calls t (m ∷ ms) = module_calls t m ++ broadcast_calls t ms

abbrev pub directed_calls : ℕ → Option Module → List Call
directed_calls t none = []
directed_calls t (some m) = module_calls t m

-- The handlers that one message reaches, in order, while they leave the tables as they are.
unfoldable pub dispatch : Context → ModuleMsg → List Call
unfolding get_module_by_id handlers_called
dispatch c m =
    if m.receiver == 0
    then broadcast_calls m.msg_type c.modules
    else directed_calls m.msg_type (get_module_by_id c m.receiver)

-- What a handler does: whether the framework still runs behind it, and the queue that it leaves.
abbrev pub Act : Type 0
Act = Call → ModuleMsg → Bool × SlotQueue → Bool × SlotQueue

abbrev pub run_calls : Act → ModuleMsg → List Call → Bool × SlotQueue → Bool × SlotQueue
run_calls act m [] s = s
run_calls act m (k ∷ ks) s = run_calls act m ks (act k m s)

-- `msg_queue_release_msg`.
abbrev pub release_slot : ℕ → Bool × SlotQueue → Bool × SlotQueue
release_slot p (running, q) = (running, record q { que = (put_empty (some p) q.que).2 })

-- The messages that were processed, as their handlers saw them, with the calls, in order; whether
-- the framework still runs; and the queue.
abbrev pub Processed : Type 0
Processed = List (ModuleMsg × List Call) × Bool × SlotQueue

abbrev pub also_seen : ModuleMsg × List Call → Option Processed → Option Processed
also_seen x none = none
also_seen x (some (seen, running, q)) = some (x ∷ seen, running, q)

-- One round of the loop, with what the later rounds do.
abbrev pub process_received :
    Act → Context → (Bool × SlotQueue → Option Processed) → Outcome SlotQueue → Option Processed
process_received act c rest (blocked q) = some ([], true, q)
process_received act c rest (returned none q) = some ([], true, q)
process_received act c rest (returned (some p) q) =
    let m = read_msg (q.slots p) in
    let calls = dispatch c m in
    also_seen (m, calls) (rest (release_slot p (run_calls act m calls (true, q))))

-- `process_framework_message_queue`. Behind `fuel` rounds it gives none.
unfoldable pub process_queue : ℕ → Act → Context → Bool × SlotQueue → Option Processed
unfolding wait_loop waits_full take_full put_empty read_msg dispatch
process_queue zero act c s = none
process_queue (suc fuel) act c (false, q) = some ([], false, q)
process_queue (suc fuel) act c (true, q) =
    process_received act c (process_queue fuel act c)
      (wait_loop (λ s. waits_full s.que) (on_ring take_full) no_wait [] q)
