-- ===== src/ShareMem/Tests.antt =====
-- Calls of share_mem_queue.c on a queue of two elements, and the theorems at such queues.
use my_common.Common.{
  ℕ, true, false, Option, none, some, List, [], ◌∷◌, ◌++◌, if◌then◌else◌, ◌≡◌, ◌↔◌, refl, arith,
}
use my_common.Common.Events.{held_after}
use my_common.ShareMem.{
  ControlBlock, Calls, got, blocked, get_write_ptr, put_write_ptr, get_read_ptr, put_read_ptr,
  get_count,
}
use my_common.ShareMem.Stream.{
  World, write_at, got_write, filled, put_write, got_read, put_read, opened, drafted, committed,
  taken, released, IsValid, view,
}
use my_common.ShareMem.Segments.{
  Platform, exists, create, get_id, new_block, mark_deleted, generate_key, finish_open,
  is_compatible,
}
use my_common.ShareMem.Balance.{same, with_delete, is_removal, create_balanced}
use my_common.ShareMem.Open.{IsGranting, is_open, create-get_id}
use my_common.ShareMem.Protocol.Runs.{
  Reach, here, next, acts, Course, committed_in, released_in, initial, empty_channel, Reach-refines,
}

abbrev granting : Platform
granting = record {
  header = 192;
  key = λ id. some 7;
  handle_ok = true;
  created = exists;
  opened = true;
  probed = true;
  attached = true;
  attributes_ok = true;
  shared_ok = true;
  mutex_ok = true;
  not_empty_ok = true;
  not_full_ok = true;
}

abbrev ok : Calls
ok = record { waited = true; locked = true; posted = true }

abbrev two : ControlBlock
two = record {
  str_id = 65 ∷ [];
  element_size = 4;
  max_elements = 2;
  capacity = 8;
  write_index = 0;
  read_index = 0;
  element_count = 0;
  is_valid = true;
  not_empty = 0;
  not_full = 2;
}

new_block-two : new_block granting (65 ∷ []) 2 4 ≡ two
unfolding new_block
new_block-two = refl

-- Two producers that get an element before one of them puts are given the same one.
get_write_ptr-twice :
    (get_write_ptr ok two ≡ got (some 0) (record two { not_full = 1 }))
    × (get_write_ptr ok (record two { not_full = 1 }) ≡ got (some 0) (record two { not_full = 0 }))
    × (get_write_ptr ok (record two { not_full = 0 }) ≡ blocked)
unfolding get_write_ptr
get_write_ptr-twice = (refl, refl, refl)

get_count-put : get_count (put_write_ptr ok (record two { not_full = 1 })).1 ≡ some 1
unfolding get_count put_write_ptr
get_count-put = refl

abbrev one_full : ControlBlock
one_full = record two { write_index = 1; element_count = 1; not_empty = 1; not_full = 1 }

-- One value through the queue.
abbrev world : ControlBlock → (ℕ → ℕ) → Option ℕ → Option ℕ → World
world b e w r = record { block = b; elements = e; writing = w; reading = r }

abbrev nothing : ℕ → ℕ
nothing a = 0

abbrev nine : ℕ → ℕ
nine = write_at nothing 0 9

one_value : Reach (initial granting (65 ∷ []) 2 4 nothing) (
    world
      (record one_full { read_index = 1; element_count = 0; not_empty = 0; not_full = 2 })
      nine
      none
      none)
unfolding new_block get_write_ptr put_write_ptr get_read_ptr put_read_ptr
one_value =
    next
      (next
        (next
          (next (next here (got_write ok 0 (record two { not_full = 1 }) refl refl refl))
            (filled 0 9 refl refl))
          (put_write ok 0 one_full refl refl refl))
        (got_read ok 0 (record one_full { not_empty = 0 }) refl refl refl))
      (put_read ok 0
        (record one_full { read_index = 1; element_count = 0; not_empty = 0; not_full = 2 }) refl
        refl refl)

abbrev behind_one : World
behind_one =
    world (record one_full { read_index = 1; element_count = 0; not_empty = 0; not_full = 2 }) nine
      none none

Reach-refines_example :
    IsValid behind_one
    × Course (empty_channel 2) (acts one_value) (view behind_one)
    × (committed_in (acts one_value) ≡ released_in (acts one_value) ++ (view behind_one).items)
Reach-refines_example =
    Reach-refines granting (65 ∷ []) 2 4 nothing (omega arith) (omega arith) (omega arith)
      (omega arith) one_value

nine_passed : acts one_value ≡ released 9 ∷ taken 9 ∷ committed 9 ∷ drafted 9 ∷ opened 0 ∷ []
unfolding one_value
nine_passed = refl

create_balanced_example :
    (held_after same (with_delete (create granting two 2 4 (some (65 ∷ [])))) []
      ≡ (if is_removal granting two 2 4 (some (65 ∷ [])) then none else some []))
    × (held_after same (with_delete (get_id granting two two (some (65 ∷ [])))) [] ≡ some [])
create_balanced_example = create_balanced granting two two 2 4 (some (65 ∷ []))

-- A segment of another process that cannot be attached is removed.
removal :
    held_after same
      (with_delete (create (record granting { attached = false }) two 2 4 (some (65 ∷ []))))
      []
    ≡ none
unfolding create generate_key
removal = refl

granting-IsGranting : IsGranting granting
granting-IsGranting = record {
  handle_ok = refl;
  made = refl;
  opened = refl;
  probed = refl;
  attached = refl;
  attributes_ok = refl;
  shared_ok = refl;
}

create-get_id_example :
    ((is_open (create granting (new_block granting (65 ∷ []) 2 4) 2 4 (some (65 ∷ []))) ≡ true)
      ↔ ((◌≡◌ {A = List ℕ} (65 ∷ []) (65 ∷ [])) × (◌≡◌ {A = ℕ} 4 4) × (◌≡◌ {A = ℕ} 2 2)))
    × ((is_open (
            get_id granting
              (new_block granting (65 ∷ []) 2 4)
              (new_block granting (65 ∷ []) 2 4)
              (some (65 ∷ [])))
          ≡ true)
        ↔ (◌≡◌ {A = List ℕ} (65 ∷ []) (65 ∷ [])))
    × (is_open
          (create granting (mark_deleted (new_block granting (65 ∷ []) 2 4)) 2 4 (some (65 ∷ [])))
        ≡ false)
    × (is_open (
          get_id granting
            (mark_deleted (new_block granting (65 ∷ []) 2 4))
            (mark_deleted (new_block granting (65 ∷ []) 2 4))
            (some (65 ∷ [])))
        ≡ false)
unfolding generate_key
create-get_id_example =
    create-get_id granting granting (65 ∷ []) (65 ∷ []) 2 4 2 4 7 granting-IsGranting (omega arith)
      (omega arith) refl

-- An opener that finds other sizes closes a descriptor that is none of its own.
closes_number :
    ((create granting two 3 4 (some (65 ∷ []))).closed ≡ true)
    × ((get_id granting two (record two { is_valid = false }) (some (65 ∷ []))).closed ≡ false)
unfolding create get_id generate_key finish_open is_compatible
closes_number = (refl, refl)
