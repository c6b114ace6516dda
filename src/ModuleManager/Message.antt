-- ===== src/ModuleManager/Message.antt =====
-- `T_ModuleMsg` of common/framework_def.h in memory, and what `msg_queue_send` of common/msgqueue.c,
-- which takes it for a `T_Msg` of common/media.h, copies of it into a slot of the queue. The offsets
-- are those of a 64-bit little-endian platform.
use my_common.Common.{ℕ, zero, suc, ◌+◌, ◌-◌, ◌*◌, ◌/◌, ◌%◌, ltb, leb, ◌==◌, if◌then◌else◌}

pub data CopyType : Type 0 where
  shallow deep : CopyType

-- `T_ModuleMsg`; its data is a pointer, and NULL is 0.
pub record ModuleMsg : Type 0 where
  pub sender : ℕ
  pub receiver : ℕ
  pub msg_type : ℕ
  pub timestamp : ℕ
  pub call_id : ℕ
  pub data_len : ℕ
  pub payload : ℕ
  pub copy_type : CopyType

-- Memory from an address on: the byte at each offset.
abbrev pub Bytes : Type 0
Bytes = ℕ → ℕ

-- The k-th byte of a word, the lowest first.
unfoldable pub byte_of : ℕ → ℕ → ℕ
byte_of w zero = w % 256
byte_of w (suc k) = byte_of (w / 256) k

abbrev pub u32_at : Bytes → ℕ → ℕ
u32_at b o = b o + 256 * b (o + 1) + 65536 * b (o + 2) + 16777216 * b (o + 3)

abbrev pub u64_at : Bytes → ℕ → ℕ
u64_at b o = u32_at b o + 4294967296 * u32_at b (o + 4)

abbrev pub copy_code : CopyType → ℕ
copy_code shallow = 0
copy_code deep = 1

-- The 48 bytes of a message, the padding cleared by `memset`, before what lies behind them.
unfoldable pub layout : ModuleMsg → Bytes → Bytes
layout m beyond i =
    if ltb i 4
    then byte_of m.sender i
    else if ltb i 8
    then byte_of m.receiver (i - 4)
    else if ltb i 12
    then byte_of m.msg_type (i - 8)
    else if ltb i 16
    then byte_of m.timestamp (i - 12)
    else if ltb i 20
    then byte_of m.call_id (i - 16)
    else if ltb i 24
    then 0
    else if ltb i 32
    then byte_of m.data_len (i - 24)
    else if ltb i 40
    then byte_of m.payload (i - 32)
    else if ltb i 44
    then byte_of (copy_code m.copy_type) (i - 40)
    else if ltb i 48
    then 0
    else beyond i

-- The fields that a receiver reads through its `T_ModuleMsg *`.
unfoldable pub read_msg : Bytes → ModuleMsg
read_msg b = record {
  sender = u32_at b 0;
  receiver = u32_at b 4;
  msg_type = u32_at b 8;
  timestamp = u32_at b 12;
  call_id = u32_at b 16;
  data_len = u64_at b 24;
  payload = u64_at b 32;
  copy_type = if u32_at b 40 == 1 then deep else shallow;
}

-- `strlen` from an offset on, cut at `bound`.
unfoldable pub string_length : ℕ → Bytes → ℕ → ℕ
string_length zero b o = 0
string_length (suc bound) b o =
    let rest = string_length bound b (o + 1) in if b o == 0 then 0 else suc rest

-- Byte `i` of `strMsgId` behind its SAFESTRCPY from a string of length `n`, or of 32 and more.
abbrev pub id_byte : ℕ → Bytes → Bytes → Bytes
id_byte n src dst i =
    if leb 32 n then (if i == 35 then 0 else src i) else if leb i (4 + n) then src i else dst i

-- Step 2 of `msg_queue_send` on the bytes of its message and of its slot: `uiCommand` at 0,
-- `strMsgId` at 4, `pcBody` at 40 and `uiCallId` at 48.
unfoldable pub copy_msg : Bytes → Bytes → Bytes
copy_msg src dst i =
    if ltb i 4
    then src i
    else if ltb i 36
    then id_byte (string_length 32 src 4) src dst i
    else if ltb i 40
    then dst i
    else if ltb i 52
    then src i
    else dst i
