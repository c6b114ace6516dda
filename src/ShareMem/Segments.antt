-- ===== src/ShareMem/Segments.antt =====
-- `ShareMemQue_Create`, `ShareMemQue_GetID` and `ShareMemQue_Delete` of share_mem_queue.c: what they
-- acquire and release, and what they leave in the segment.
use my_common.Common.{
  ℕ, Bool, true, false, not, ◌&&◌, ◌||◌, Option, none, some, List, [], ◌∷◌, ◌++◌, take, ◌==◌,
  if◌then◌else◌,
}
use my_common.Common.StateCode.{StateCode, no_error, init_failure}
use my_common.Common.Strings.{str_eq}
use my_common.Common.Events.{Event, acquire, release}
use my_common.Common.Words.{add64, sub64, mul64}
use my_common.ShareMem.{ControlBlock}

pub data Resource : Type 0 where
  handle segment mapping attributes mutex sem_not_empty sem_not_full : Resource

-- How `shmget` with IPC_CREAT and IPC_EXCL ends.
pub data Created : Type 0 where
  fresh exists refused : Created

-- Which requests the platform grants. `key` is what `ftok` gives for an id, `header` the size of the
-- control block; `opened` is the `shmget` of a segment that is there, `probed` the read-only `shmat`
-- of `ShareMemQue_GetID`.
pub record Platform : Type 0 where
  pub header : ℕ
  pub key : List ℕ → Option ℕ
  pub handle_ok : Bool
  pub created : Created
  pub opened : Bool
  pub probed : Bool
  pub attached : Bool
  pub attributes_ok : Bool
  pub shared_ok : Bool
  pub mutex_ok : Bool
  pub not_empty_ok : Bool
  pub not_full_ok : Bool

-- `SMQ_InternalHandle`, whose addresses are the mapping's.
pub record Handle : Type 0 where
  pub shm_size : ℕ
  pub is_creator : Bool

-- -1 is `none`.
unfoldable pub generate_key : Platform → Option (List ℕ) → Option ℕ
generate_key p none = none
generate_key p (some []) = none
generate_key p (some (c ∷ cs)) = p.key (c ∷ cs)

unfoldable pub calculate_shm_size : Platform → ℕ → ℕ → ℕ
calculate_shm_size p size count = add64 p.header (mul64 size count)

-- `init_sync_primitives`: whether it succeeds, and what it acquires and releases.
unfoldable pub init_sync_primitives : Platform → Bool → Bool × List (Event Resource)
init_sync_primitives p is_create =
    if not p.attributes_ok
    then (false, [])
    else if not p.shared_ok
    then (false, acquire attributes ∷ release attributes ∷ [])
    else if not is_create
    then (true, acquire attributes ∷ release attributes ∷ [])
    else if not p.mutex_ok
    then (false, acquire attributes ∷ release attributes ∷ [])
    else if not p.not_empty_ok
    then (false, acquire attributes ∷ acquire mutex ∷ release mutex ∷ release attributes ∷ [])
    else if not p.not_full_ok
    then (
      false,
      acquire attributes
          ∷ acquire mutex
          ∷ acquire sem_not_empty
          ∷ release sem_not_empty
          ∷ release mutex
          ∷ release attributes
          ∷ [],
    )
    else (
      true,
      acquire attributes
          ∷ acquire mutex
          ∷ acquire sem_not_empty
          ∷ acquire sem_not_full
          ∷ release attributes
          ∷ [],
    )

-- What the creator writes into the segment: `strncpy` leaves the last of 64 bytes zero.
unfoldable pub new_block : Platform → List ℕ → ℕ → ℕ → ControlBlock
unfolding calculate_shm_size
new_block p id count size = record {
  str_id = take 63 id;
  element_size = size;
  max_elements = count;
  capacity = sub64 (calculate_shm_size p size count) p.header;
  write_index = 0;
  read_index = 0;
  element_count = 0;
  is_valid = true;
  not_empty = 0;
  not_full = count;
}

-- The test of a segment that another process made.
unfoldable pub is_compatible : ControlBlock → List ℕ → ℕ → ℕ → Bool
unfolding str_eq
is_compatible b id count size =
    b.is_valid && str_eq b.str_id id && b.element_size == size && b.max_elements == count

-- A call: the handle or NULL, what it acquired and released, whether it called `close` on the
-- number of the segment, and the block that it wrote.
pub record Opening : Type 0 where
  pub result : Option Handle
  pub events : List (Event Resource)
  pub closed : Bool
  pub wrote : Option ControlBlock

abbrev failed : List (Event Resource) → Opening
failed es = record { result = none; events = es; closed = false; wrote = none }

-- `ShareMemQue_Create` behind its `shmat` of a segment that it made.
unfoldable pub finish_create : Platform → List ℕ → ℕ → ℕ → Opening
unfolding init_sync_primitives new_block
finish_create p id count size =
    let before = acquire handle ∷ acquire segment ∷ acquire mapping ∷ [] in
    let (ok, es) = init_sync_primitives p true in
    if ok
    then record {
      result = some (record { shm_size = calculate_shm_size p size count; is_creator = true });
      events = before ++ es;
      closed = false;
      wrote = some (new_block p id count size);
    }
    else record (failed
        (before ++ (es ++ (release mapping ∷ release segment ∷ release handle ∷ [])))) {
          closed = true;
        }

-- Behind the `shmat` of a segment `b` that is there: `ShareMemQue_Create` and `ShareMemQue_GetID`
-- end alike, but for what they acquired before and whether they call `close` when they fail.
unfoldable pub finish_open :
    List (Event Resource) → Bool → Platform → ControlBlock → List ℕ → ℕ → ℕ → Opening
unfolding init_sync_primitives
finish_open before closes p b id count size =
    let (ok, es) = init_sync_primitives p false in
    if not (is_compatible b id count size)
    then record (failed (before ++ (release mapping ∷ release handle ∷ []))) { closed = closes }
    else if ok
    then record {
      result = some (record { shm_size = calculate_shm_size p size count; is_creator = false });
      events = before ++ es;
      closed = false;
      wrote = none;
    }
    else record (failed (before ++ (es ++ (release mapping ∷ release handle ∷ [])))) {
      closed = closes;
    }

-- `ShareMemQue_Create` where `b` is in the segment, if there is one. A failed `shmat` removes the
-- segment, whoever made it; the segment -1 cannot be attached.
unfoldable pub create : Platform → ControlBlock → ℕ → ℕ → Option (List ℕ) → Opening
create p b count size none = failed []
create p b count size (some id) =
    if size == 0 || count == 0
    then failed []
    else if not p.handle_ok
    then failed []
    else elim (generate_key p (some id)) [
      | none ↦ failed (acquire handle ∷ release handle ∷ [])
      | some key ↦ elim (p.created) [
        | refused ↦ failed (acquire handle ∷ release handle ∷ [])
        | fresh ↦
            if p.attached
            then finish_create p id count size
            else failed (acquire handle ∷ acquire segment ∷ release segment ∷ release handle ∷ [])
        | exists ↦
            if not p.opened
            then failed (acquire handle ∷ release handle ∷ [])
            else if p.attached
            then finish_open (acquire handle ∷ acquire mapping ∷ []) true p b id count size
            else failed (acquire handle ∷ release segment ∷ release handle ∷ [])
      ]
    ]

-- `ShareMemQue_GetID`, which finds `probe` in the segment and, when it attaches it again, `b`.
unfoldable pub get_id : Platform → ControlBlock → ControlBlock → Option (List ℕ) → Opening
get_id p probe b none = failed []
get_id p probe b (some id) = elim (generate_key p (some id)) [
  | none ↦ failed []
  | some key ↦
      if not p.opened
      then failed []
      else if not p.probed
      then failed []
      else if not p.handle_ok
      then failed (acquire mapping ∷ release mapping ∷ [])
      else if p.attached
      then finish_open (acquire mapping ∷ release mapping ∷ acquire handle ∷ acquire mapping ∷ [])
          false p b id probe.max_elements probe.element_size
      else failed (acquire mapping ∷ release mapping ∷ acquire handle ∷ release handle ∷ [])
]

-- What `ShareMemQue_Delete` releases.
unfoldable pub delete_events : Handle → List (Event Resource)
delete_events h =
    if h.is_creator
    then release sem_not_empty
      ∷ release sem_not_full
      ∷ release mutex
      ∷ release mapping
      ∷ release segment
      ∷ release handle
      ∷ []
    else release mapping ∷ release handle ∷ []

-- What it leaves in the segment, whoever calls it.
unfoldable pub mark_deleted : ControlBlock → ControlBlock
mark_deleted b = record b { is_valid = false }

-- Its code, from the returns of `shmdt` and of `shmctl`.
unfoldable pub delete_code : Handle → Bool → Bool → StateCode
delete_code h detached removed =
    if not detached
    then init_failure
    else if h.is_creator && not removed
    then init_failure
    else no_error
