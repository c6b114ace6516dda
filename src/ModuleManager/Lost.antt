-- ===== src/ModuleManager/Lost.antt =====
-- A message through the framework: which handlers it reaches, and what they see of it.
use my_common.Common.{
  ℕ, ◌^◌, ◌<◌, Bool, true, false, not, ◌&&◌, ◌||◌, some, List, [], ◌∷◌, ltb, ◌==◌, ◌≡◌, ◌≢◌, refl,
  ap, ◌∙◌, arith,
}
use my_common.Common.StateCode.{no_error}
use my_common.CommQue.{Timeout, Wake}
use my_common.ModuleManager.{Context, get_module_by_id, is_found}
use my_common.ModuleManager.Message.{CopyType, ModuleMsg, Bytes, layout, read_msg}
use my_common.ModuleManager.Delivery.{arrived, arrived-kept, arrived-typeless, arrived-receiver}
use my_common.ModuleManager.Dispatch.{
  SlotQueue, sent, send_message, deep_copy_data, payload_of, freed_copy, is_deep, dispatch, Call,
  Act, process_queue,
}
use my_common.ModuleManager.Round.{
  IsIdle, IsQuiet, old_slot, filled, send_bytes_now, process_one, dispatch_congr,
}

-- What `framework_send_message` asks of a message, with ids in range.
pub record IsSendable (m : ModuleMsg) (c : Context) : Type 0 where
  pub runs : c.is_running ≡ true
  pub queue : c.has_queue ≡ true
  pub sender : m.sender ≢ 0
  pub sender_word : m.sender < 2 ^ 32
  pub known : is_found (get_module_by_id c m.sender) ≡ true
  pub near : m.receiver < 256

-- A deep copy of data of a positive length has the data and, at `memory`, room for the copy.
abbrev pub can_copy : ℕ → ModuleMsg → Bool
can_copy memory m =
    not (is_deep m.copy_type) || m.data_len == 0 || (not (m.payload == 0) && not (memory == 0))

-- The message as it is sent, with the address of its data's copy.
abbrev outgoing : ℕ → ModuleMsg → ModuleMsg
outgoing memory m = record m { payload = payload_of m.copy_type memory m.payload m.data_len }

has_body :
    (k : CopyType) (memory src len : ℕ)
    → (not (is_deep k) || len == 0 || (not (src == 0) && not (memory == 0))) ≡ true
    → (is_deep k && payload_of k memory src len == 0 && ltb 0 len) ≡ false
unfolding deep_copy_data
has_body CopyType.shallow memory src len h = refl
has_body CopyType.deep memory src len h = ground arith

send_now :
    (t : Timeout) (ws : List (Wake SlotQueue)) (memory : ℕ) (beyond : Bytes) (m : ModuleMsg)
    (c : Context) (q : SlotQueue)
    → IsIdle q.que
    → IsSendable m c
    → can_copy memory m ≡ true
    → send_message t ws memory beyond m c q
      ≡ sent no_error [] (filled (layout (outgoing memory m) beyond) q)
unfolding send_message
send_now t ws memory beyond m c q idle ready given =
    let some_sender : (m.sender == 0) ≡ false = ground (arith, ready.sender) in
    rw
      (
        some_sender,
        ready.known,
        has_body m.copy_type memory m.payload m.data_len given,
        ready.runs,
        ready.queue,
      )
      (send_bytes_now t ws (freed_copy m.copy_type (outgoing memory m).payload)
        (layout (outgoing memory m) beyond) q idle)

-- On a running framework with a queue, a message from a registered module, whose id is below 2^32
-- and not 0, to a receiver below 256 is accepted, where the queue is live and has a free slot,
-- nothing pending and its read and write indices equal, the slot last held a receiver below 256,
-- and a deep copy of data of a positive length has the data and memory for the copy; with
-- handlers that change nothing it is processed once: its receiver and sender come through, but
-- its type, its data pointer and its data length are those that the slot held before, so it
-- reaches exactly the handlers of that old type.
pub send_message-process_queue :
    (t : Timeout) (ws : List (Wake SlotQueue)) (memory : ℕ) (beyond : Bytes) (act : Act)
    (m : ModuleMsg) (c : Context) (q : SlotQueue)
    → IsQuiet act
    → IsIdle q.que
    → IsSendable m c
    → can_copy memory m ≡ true
    → (read_msg (old_slot q)).receiver < 256
    → (queued left : SlotQueue) × (got : ModuleMsg) × (send_message t ws memory beyond m c q
        ≡ sent no_error [] queued)
      × (process_queue 2 act c (true, queued)
          ≡ some (
            (got, dispatch c (record m { msg_type = (read_msg (old_slot q)).msg_type })) ∷ [],
            true,
            left,
          ))
      × (got.sender ≡ m.sender)
      × (got.receiver ≡ m.receiver)
      × (got.msg_type ≡ (read_msg (old_slot q)).msg_type)
      × (got.data_len ≡ (read_msg (old_slot q)).data_len)
      × (got.payload ≡ (read_msg (old_slot q)).payload)
send_message-process_queue t ws memory beyond act m c q quiet idle ready given old =
    let sent_msg = outgoing memory m in
    let b = layout sent_msg beyond in
    let (left, seen) = process_one act c b q quiet idle in
    let (from, copied, len, address) =
      arrived-kept sent_msg beyond (old_slot q) ready.sender_word in
    let (kind, time, call) =
      arrived-typeless sent_msg beyond (old_slot q) (omega (arith, ready.near)) in
    let to = arrived-receiver sent_msg beyond (old_slot q) ready.near old in
    (
      filled b q,
      left,
      arrived sent_msg beyond (old_slot q),
      send_now t ws memory beyond m c q idle ready given,
      seen
          ∙ ap
              (λ (ks : List Call).
                some ((arrived sent_msg beyond (old_slot q), ks) ∷ [], true, left))
              (dispatch_congr c (arrived sent_msg beyond (old_slot q)) _ to kind),
      from,
      to,
      kind,
      len,
      address,
    )
