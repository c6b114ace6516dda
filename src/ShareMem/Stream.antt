-- ===== src/ShareMem/Stream.antt =====
-- One producer and one consumer of share_mem_queue.c, and the bounded queue of values that they see.
use my_common.Common.{
  ℕ, ◌+◌, ◌*◌, ◌%◌, ◌^◌, ◌<◌, true, Option, none, some, List, [], ◌∷◌, ◌++◌, map, length, ◌==◌,
  if◌then◌else◌, ◌≡◌,
}
use my_common.Common.Window.{window}
use my_common.Common.StateCode.{no_error}
use my_common.ShareMem.{
  ControlBlock, Calls, got, element_at, get_write_ptr, put_write_ptr, get_read_ptr, put_read_ptr,
}

-- The shared memory, with the value of the element at each offset, and what each side holds between
-- its get and its put.
pub record World : Type 0 where
  pub block : ControlBlock
  pub elements : ℕ → ℕ
  pub writing : Option ℕ
  pub reading : Option ℕ

abbrev pub write_at : (ℕ → ℕ) → ℕ → ℕ → ℕ → ℕ
write_at elements p v a = if a == p then v else elements a

-- A call of the producer or of the consumer, or a write of the producer to the element that it
-- holds. Left out are calls that wait or that fail
-- (they change nothing, as long as no semaphore is at its limit).
pub data Step (w u : World) : Type 0 where
  got_write :
      (k : Calls) (p : ℕ) (b : ControlBlock)
      → w.writing ≡ none
      → get_write_ptr k w.block ≡ got (some p) b
      → u ≡ record w { block = b; writing = some p }
      → Step w u
  filled :
      (p v : ℕ)
      → w.writing ≡ some p
      → u ≡ record w { elements = write_at w.elements p v }
      → Step w u
  put_write :
      (k : Calls) (p : ℕ) (b : ControlBlock)
      → w.writing ≡ some p
      → put_write_ptr k w.block ≡ (no_error, b)
      → u ≡ record w { block = b; writing = none }
      → Step w u
  got_read :
      (k : Calls) (p : ℕ) (b : ControlBlock)
      → w.reading ≡ none
      → get_read_ptr k w.block ≡ got (some p) b
      → u ≡ record w { block = b; reading = some p }
      → Step w u
  put_read :
      (k : Calls) (p : ℕ) (b : ControlBlock)
      → w.reading ≡ some p
      → put_read_ptr k w.block ≡ (no_error, b)
      → u ≡ record w { block = b; reading = none }
      → Step w u

-- The specification: the values that are committed and not released, oldest first, with what each
-- side holds, and room for `room` values.
pub record Channel : Type 0 where
  pub items : List ℕ
  pub draft : Option ℕ
  pub front : Option ℕ
  pub room : ℕ

-- What a step does, with the value that the element which it opens, writes, commits, takes or
-- releases holds then.
pub data Act : Type 0 where
  opened drafted committed taken released : ℕ → Act

abbrev pub act_of : {w u : World} → Step w u → Act
act_of {w} (got_write k p b e g eu) = opened (w.elements p)
act_of (filled p v e eu) = drafted v
act_of {w} (put_write k p b e g eu) = committed (w.elements p)
act_of {w} (got_read k p b e g eu) = taken (w.elements p)
act_of {w} (put_read k p b e g eu) = released (w.elements p)

-- What each act does to the channel, and when it can be done.
abbrev pub Moves : Act → Channel → Channel → Type 0
Moves (opened v) s t =
    (s.draft ≡ none) × (length s.items < s.room) × (t ≡ record s { draft = some v })
Moves (drafted v) s t = (old : ℕ) × (s.draft ≡ some old) × (t ≡ record s { draft = some v })
Moves (committed v) s t =
    (s.draft ≡ some v) × (t ≡ record s { items = s.items ++ (v ∷ []); draft = none })
Moves (taken v) s t =
    (rest : List ℕ) × (s.front ≡ none) × (s.items ≡ v ∷ rest) × (t ≡ record s { front = some v })
Moves (released v) s t =
    (rest : List ℕ) × (s.front ≡ some v)
    × (s.items ≡ v ∷ rest)
    × (t ≡ record s { items = rest; front = none })

abbrev pub value_of : (ℕ → ℕ) → Option ℕ → Option ℕ
value_of elements none = none
value_of elements (some p) = some (elements p)

-- What the shared memory stands for.
abbrev pub view : World → Channel
view w = record {
  items =
      map (λ i. w.elements (element_at w.block i))
        (window w.block.max_elements w.block.read_index w.block.element_count);
  draft = value_of w.elements w.writing;
  front = value_of w.elements w.reading;
  room = w.block.max_elements;
}

abbrev pub held : Option ℕ → ℕ
held none = 0
held (some p) = 1

abbrev pub IsAt : Option ℕ → ℕ → Type 0
IsAt none q = Unit
IsAt (some p) q = p ≡ q

-- The semaphores count what is free and filled and not held, the write index stands behind the
-- elements, and each side holds the element at its index.
pub record IsValid (w : World) : Type 0 where
  pub valid : w.block.is_valid ≡ true
  pub nonempty : 0 < w.block.max_elements
  pub sized : 0 < w.block.element_size
  pub fits : w.block.max_elements * w.block.element_size < 2 ^ 64
  pub small : w.block.max_elements < 2 ^ 64
  pub read_in : w.block.read_index < w.block.max_elements
  pub write_in :
      w.block.write_index ≡ (w.block.read_index + w.block.element_count) % w.block.max_elements
  pub free : w.block.element_count + held w.writing + w.block.not_full ≡ w.block.max_elements
  pub full : held w.reading + w.block.not_empty ≡ w.block.element_count
  pub writes : IsAt w.writing (element_at w.block w.block.write_index)
  pub reads : IsAt w.reading (element_at w.block w.block.read_index)
