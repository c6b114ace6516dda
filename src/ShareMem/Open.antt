-- ===== src/ShareMem/Open.antt =====
-- Which calls open a shared-memory queue that another process made.
use my_common.Common.{ℕ, Bool, true, false, none, some, List, take, ◌≡◌, ◌≢◌, ◌↔◌, refl, arith}
use my_common.Common.Strings.{str_eq_iff}
use my_common.ShareMem.{ControlBlock}
use my_common.ShareMem.Segments.{
  exists, Platform, Opening, create, get_id, finish_open, generate_key, new_block, is_compatible,
  mark_deleted,
}

-- The platform finds the segment and grants all else.
pub record IsGranting (p : Platform) : Type 0 where
  pub handle_ok : p.handle_ok ≡ true
  pub made : p.created ≡ exists
  pub opened : p.opened ≡ true
  pub probed : p.probed ≡ true
  pub attached : p.attached ≡ true
  pub attributes_ok : p.attributes_ok ≡ true
  pub shared_ok : p.shared_ok ≡ true

abbrev pub is_open : Opening → Bool
is_open o = elim (o.result) [ none ↦ false | some h ↦ true ]

module _ {p : Platform} (g : IsGranting p) where
  create-compatible :
      (b : ControlBlock) (count size : ℕ) (id : List ℕ) (k : ℕ)
      → count ≢ 0
      → size ≢ 0
      → generate_key p (some id) ≡ some k
      → is_open (create p b count size (some id)) ≡ is_compatible b id count size
  unfolding create finish_open
  create-compatible b count size id k hc hs e = ground (arith, e, g.made, g.opened)

  get_id-compatible :
      (b : ControlBlock) (id : List ℕ) (k : ℕ)
      → generate_key p (some id) ≡ some k
      → is_open (get_id p b b (some id)) ≡ is_compatible b id b.max_elements b.element_size
  unfolding get_id finish_open
  get_id-compatible b id k e = ground (arith, e)

compatible_iff :
    (p : Platform) (id id' : List ℕ) (count size count' size' : ℕ)
    → (is_compatible (new_block p id count size) id' count' size' ≡ true)
      ↔ ((take 63 id ≡ id') × (size ≡ size') × (count ≡ count'))
unfolding is_compatible new_block
compatible_iff p id id' count size count' size' = (
  λ e. ground (arith, (str_eq_iff (take 63 id) id').0),
  λ e. ground (arith, (str_eq_iff (take 63 id) id').1),
)

deleted-compatible :
    (b : ControlBlock) (id : List ℕ) (count size : ℕ)
    → is_compatible (mark_deleted b) id count size ≡ false
unfolding is_compatible mark_deleted
deleted-compatible b id count size = refl

-- Where the platform finds the segment of a new queue and grants all requests, a second
-- ShareMemQue_Create opens it exactly for the same numbers and the same id, and ShareMemQue_GetID
-- exactly for the same id, but the id is that of the first call cut to 63 bytes, so a longer id
-- opens nothing; and behind any ShareMemQue_Delete both open nothing.
pub create-get_id :
    (p q : Platform) (id id' : List ℕ) (count size count' size' k : ℕ)
    → IsGranting p
    → count' ≢ 0
    → size' ≢ 0
    → generate_key p (some id') ≡ some k
    → ((is_open (create p (new_block q id count size) count' size' (some id')) ≡ true)
        ↔ ((take 63 id ≡ id') × (size ≡ size') × (count ≡ count')))
      × ((is_open (get_id p (new_block q id count size) (new_block q id count size) (some id'))
            ≡ true)
          ↔ (take 63 id ≡ id'))
      × (is_open (create p (mark_deleted (new_block q id count size)) count' size' (some id'))
          ≡ false)
      × (is_open (
            get_id p
              (mark_deleted (new_block q id count size))
              (mark_deleted (new_block q id count size))
              (some id'))
          ≡ false)
unfolding new_block
create-get_id p q id id' count size count' size' k g hc hs e =
    let b = new_block q id count size in
    let c = compatible_iff q id id' count size count' size' in
    let d = compatible_iff q id id' count size count size in
    (
      rw (create-compatible g b count' size' id' k hc hs e) c,
      rw (get_id-compatible g b id' k e) ((λ o. (d.0 o).0), (λ o. d.1 (o, refl, refl))),
      rw (create-compatible g (mark_deleted b) count' size' id' k hc hs e)
          (deleted-compatible b id' count' size'),
      rw (get_id-compatible g (mark_deleted b) id' k e) (deleted-compatible b id' _ _),
    )
