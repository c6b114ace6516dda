-- ===== src/ShareMem.antt =====
-- common/shareMem/share_mem_queue.c: a ring of elements in shared memory, with two counting
-- semaphores for the free and the filled elements. A null handle is tested first in each function
-- of the source; here the handle and its control block are there.
pub mod Stream
pub mod Protocol
pub mod Open
pub mod Segments
pub mod Balance
mod Tests
use my_common.Common.{
  ℕ, ◌+◌, ◌-◌, ◌%◌, Bool, true, false, not, Option, none, some, List, ◌==◌, if◌then◌else◌,
}
use my_common.Common.StateCode.{StateCode, no_error, invalid_param, init_failure}
use my_common.Common.Words.{add64, sub64, mul64}

-- `SMQ_ControlBlock` without its mutex; the id is a C string, a semaphore its count.
pub record ControlBlock : Type 0 where
  pub str_id : List ℕ
  pub element_size : ℕ
  pub max_elements : ℕ
  pub capacity : ℕ
  pub write_index : ℕ
  pub read_index : ℕ
  pub element_count : ℕ
  pub is_valid : Bool
  pub not_empty : ℕ
  pub not_full : ℕ

-- How the calls of the platform end: `sem_wait` may be interrupted, the mutex may refuse, and a
-- semaphore may be at its limit.
pub record Calls : Type 0 where
  pub waited : Bool
  pub locked : Bool
  pub posted : Bool

-- A get: NULL or the offset of the element behind the control block, or that it still waits.
pub data Get : Type 0 where
  got : Option ℕ → ControlBlock → Get
  blocked : Get

abbrev pub element_at : ControlBlock → ℕ → ℕ
element_at b i = mul64 i b.element_size

-- Behind its wait for a free element `ShareMemQue_GetWritePtr` takes the mutex, or posts again.
unfoldable pub locate_write : Bool → ControlBlock → Get
locate_write true b = got (some (element_at b b.write_index)) b
locate_write false b = got none (record b { not_full = b.not_full + 1 })

unfoldable pub get_write_ptr : Calls → ControlBlock → Get
unfolding locate_write
get_write_ptr k b =
    if not b.is_valid
    then got none b
    else if not k.waited
    then got none b
    else if b.not_full == 0
    then blocked
    else locate_write k.locked (record b { not_full = b.not_full - 1 })

unfoldable pub put_write_ptr : Calls → ControlBlock → StateCode × ControlBlock
put_write_ptr k b =
    if not b.is_valid
    then (invalid_param, b)
    else if not k.locked
    then (init_failure, b)
    else (let b' : ControlBlock = record b {
      write_index = add64 b.write_index 1 % b.max_elements;
      element_count = add64 b.element_count 1;
    } in
        if k.posted
        then (no_error, record b' { not_empty = b'.not_empty + 1 })
        else (init_failure, b'))

unfoldable pub locate_read : Bool → ControlBlock → Get
locate_read true b = got (some (element_at b b.read_index)) b
locate_read false b = got none (record b { not_empty = b.not_empty + 1 })

unfoldable pub get_read_ptr : Calls → ControlBlock → Get
unfolding locate_read
get_read_ptr k b =
    if not b.is_valid
    then got none b
    else if not k.waited
    then got none b
    else if b.not_empty == 0
    then blocked
    else locate_read k.locked (record b { not_empty = b.not_empty - 1 })

unfoldable pub put_read_ptr : Calls → ControlBlock → StateCode × ControlBlock
put_read_ptr k b =
    if not b.is_valid
    then (invalid_param, b)
    else if not k.locked
    then (init_failure, b)
    else (let b' : ControlBlock = record b {
      read_index = add64 b.read_index 1 % b.max_elements;
      element_count = sub64 b.element_count 1;
    } in
        if k.posted
        then (no_error, record b' { not_full = b'.not_full + 1 })
        else (init_failure, b'))

-- -1 is `none`; the count is below what an `int` has room for.
unfoldable pub get_count : ControlBlock → Option ℕ
get_count b = if b.is_valid then some b.element_count else none
