-- ===== src/CommQue/Slots.antt =====
-- The slots of a queue in use: an abstract view of `CommQue_t` with the slots that its clients hold.
use my_common.Common.{ℕ, ◌+◌, ◌%◌, ◌^◌, ◌≤◌, ◌<◌, ◌≡◌, ◌≢◌, List, [], ◌∷◌, ◌++◌, All}
use my_common.Common.Window.{part}
use my_common.CommQue.{CommQue}

-- The queue, and what the code does not record: the oldest slot that a consumer holds, how many
-- slots consumers hold (got full, not put empty yet) and how many producers hold (got empty, not
-- put full yet).
pub record World : Type 0 where
  pub que : CommQue
  pub oldest : ℕ
  pub reading : ℕ
  pub writing : ℕ

-- Round the ring stand the slots held by consumers, the full ones, those held by producers, and
-- the empty ones. With at most 2^31 slots no index computation wraps.
pub record IsValid (w : World) : Type 0 where
  pub nonempty : 0 < w.que.max_count
  pub small : w.que.max_count ≤ 2 ^ 31
  pub oldest_in : w.oldest < w.que.max_count
  pub total : w.reading + w.que.full_count + w.writing + w.que.empty_count ≡ w.que.max_count
  pub read_at : w.que.read ≡ (w.oldest + w.reading) % w.que.max_count
  pub write_at :
      w.que.write ≡ (w.oldest + (w.reading + w.que.full_count + w.writing)) % w.que.max_count

-- The four groups of slots as lists, each in the order in which its slots move on.
pub record SlotLists : Type 0 where
  pub reading : List ℕ
  pub full : List ℕ
  pub writing : List ℕ
  pub empty : List ℕ

-- The slots from the `i`-th behind the oldest on.
abbrev pub slots_from : World → ℕ → ℕ → List ℕ
slots_from w i n = part w.que.max_count w.oldest i n

-- By the counts; in a valid state `read` and `write` are the first full and the first empty slot.
abbrev pub view : World → SlotLists
view w = record {
  reading = slots_from w 0 w.reading;
  full = slots_from w w.reading w.que.full_count;
  writing = slots_from w (w.reading + w.que.full_count) w.writing;
  empty = slots_from w (w.reading + w.que.full_count + w.writing) w.que.empty_count;
}

abbrev pub all_slots : SlotLists → List ℕ
all_slots s = s.reading ++ (s.full ++ (s.writing ++ s.empty))

-- No element twice.
abbrev pub Distinct : List ℕ → Type 0
Distinct [] = Unit
Distinct (x ∷ xs) = All (λ y. y ≢ x) xs × Distinct xs
