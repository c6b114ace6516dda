-- ===== src/ModuleManager/Delivery.antt =====
-- What of a `T_ModuleMsg` comes through a slot of the message queue.
use my_common.Common.{
  ℕ, zero, suc, ◌+◌, ◌*◌, ◌^◌, ◌<◌, ◌≤◌, ◌==◌, if◌then◌else◌, ◌≡◌, refl, ap₂, arith,
}
use my_common.ModuleManager.Message.{
  CopyType, shallow, deep, ModuleMsg, Bytes, byte_of, u32_at, u64_at, copy_code, layout, read_msg,
  string_length, id_byte, copy_msg,
}

-- A zero byte ends the string.
string_length_bound :
    (bound : ℕ) (b : Bytes) (o k p : ℕ) → p ≡ o + k → b p ≡ 0 → string_length bound b o ≤ k
unfolding string_length
string_length_bound zero b o k p at e = omega arith
string_length_bound (suc bound) b o zero p at e = ground arith
string_length_bound (suc bound) b o (suc k) p at e =
    ground (arith, string_length_bound bound b (o + 1) k p)

byte_word :
    (w : ℕ)
    → w < 2 ^ 32
    → byte_of w 0 + 256 * byte_of w 1 + 65536 * byte_of w 2 + 16777216 * byte_of w 3 ≡ w
unfolding byte_of
byte_word w h = omega arith

id_byte_behind :
    (src dst : Bytes) (n k i : ℕ) → n ≤ k → k < 32 → 4 + k < i → id_byte n src dst i ≡ dst i
id_byte_behind src dst n k i hn hk hi = ground arith

-- The bytes behind the string in the slot are left as they were.
copy_behind :
    (src dst : Bytes) (k p i : ℕ)
    → p ≡ 4 + k
    → src p ≡ 0
    → k < 32
    → 4 + k < i
    → i < 40
    → copy_msg src dst i ≡ dst i
unfolding copy_msg
copy_behind src dst k p i at e hk hi lt = ground (
  arith,
  id_byte_behind src dst (string_length 32 src 4) k i (string_length_bound 32 src 4 k p at e),
)

-- A byte that is zero in both is zero in the copy, and the first byte of the id is copied.
copy_zero :
    (src dst : Bytes) (i : ℕ) → 4 ≤ i → i < 36 → src i ≡ 0 → dst i ≡ 0 → copy_msg src dst i ≡ 0
unfolding copy_msg
copy_zero src dst i lo hi e d = ground arith

copy_first : (src dst : Bytes) → copy_msg src dst 4 ≡ src 4
unfolding copy_msg
copy_first src dst = ground arith

u32-kept :
    {a b : Bytes} (o : ℕ) → ((i : ℕ) → o ≤ i → i < o + 4 → a i ≡ b i) → u32_at a o ≡ u32_at b o
u32-kept o same = ground (
  arith,
  same o (omega arith) (omega arith),
  same (o + 1) (omega arith) (omega arith),
  same (o + 2) (omega arith) (omega arith),
  same (o + 3) (omega arith) (omega arith),
)

u64-kept :
    {a b : Bytes} (o : ℕ) → ((i : ℕ) → o ≤ i → i < o + 8 → a i ≡ b i) → u64_at a o ≡ u64_at b o
u64-kept o same =
    ap₂ (λ (x y : ℕ). x + 4294967296 * y) (u32-kept o (λ i lo hi. same i lo (omega arith)))
      (u32-kept (o + 4) (λ i lo hi. same i (omega arith) (omega arith)))

code_word :
    (c : CopyType)
    → (if byte_of (copy_code c) 0
            + 256 * byte_of (copy_code c) 1
            + 65536 * byte_of (copy_code c) 2
            + 16777216 * byte_of (copy_code c) 3
          == 1
        then deep
        else shallow)
      ≡ c
unfolding byte_of
code_word shallow = refl
code_word deep = refl

-- A message through a slot, as the receiver reads it.
abbrev pub arrived : ModuleMsg → Bytes → Bytes → ModuleMsg
arrived m beyond old = read_msg (copy_msg (layout m beyond) old)

module _ (m : ModuleMsg) (beyond old : Bytes) where
  -- Behind the four ids there is padding, so the copy of the id ends there at the latest.
  kept_after : (i : ℕ) → 20 < i → i < 40 → copy_msg (layout m beyond) old i ≡ old i
  unfolding layout
  kept_after i lo hi =
      copy_behind (layout m beyond) old 16 20 i refl refl (omega arith) (omega arith) hi

  -- A receiver below 2^24 has a zero byte itself.
  kept_behind_receiver :
      m.receiver < 2 ^ 24 → (i : ℕ) → 7 < i → i < 40 → copy_msg (layout m beyond) old i ≡ old i
  unfolding layout byte_of
  kept_behind_receiver small i lo hi =
      copy_behind (layout m beyond) old 3 7 i refl (omega arith) (omega arith) (omega arith) hi

  -- x
  pub arrived-kept :
      m.sender < 2 ^ 32
      → ((arrived m beyond old).sender ≡ m.sender)
        × ((arrived m beyond old).copy_type ≡ m.copy_type)
        × ((arrived m beyond old).data_len ≡ (read_msg old).data_len)
        × ((arrived m beyond old).payload ≡ (read_msg old).payload)
  unfolding read_msg copy_msg layout
  arrived-kept small = (
    byte_word m.sender small,
    code_word m.copy_type,
    u64-kept 24 (λ i lo hi. kept_after i (omega arith) (omega arith)),
    u64-kept 32 (λ i lo hi. kept_after i (omega arith) (omega arith)),
  )

  -- x
  pub arrived-typeless :
      m.receiver < 2 ^ 24
      → ((arrived m beyond old).msg_type ≡ (read_msg old).msg_type)
        × ((arrived m beyond old).timestamp ≡ (read_msg old).timestamp)
        × ((arrived m beyond old).call_id ≡ (read_msg old).call_id)
  unfolding read_msg
  arrived-typeless small = (
    u32-kept 8 (λ i lo hi. kept_behind_receiver small i (omega arith) (omega arith)),
    u32-kept 12 (λ i lo hi. kept_behind_receiver small i (omega arith) (omega arith)),
    u32-kept 16 (λ i lo hi. kept_behind_receiver small i (omega arith) (omega arith)),
  )

  -- x
  pub arrived-receiver :
      m.receiver < 256
      → (read_msg old).receiver < 256
      → (arrived m beyond old).receiver ≡ m.receiver
  unfolding read_msg layout byte_of
  arrived-receiver small before = omega (
    arith,
    copy_first (layout m beyond) old,
    copy_zero (layout m beyond) old 5 (omega arith) (omega arith) (omega arith) (omega arith),
    copy_zero (layout m beyond) old 6 (omega arith) (omega arith) (omega arith) (omega arith),
    copy_zero (layout m beyond) old 7 (omega arith) (omega arith) (omega arith) (omega arith),
  )
