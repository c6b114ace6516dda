-- ===== src/RequestQueue/Table.antt =====
-- The calls of uthash.h that common/request_que.c makes, as an interface: a table of requests by id.
use my_common.Common.{ℕ, ◌≡◌, Option, none, some, List, [], ◌∷◌, ◌++◌, length, ◌==◌, if◌then◌else◌}
use my_common.Common.Distinct.{DistinctBy}

-- An id and the address of its request.
abbrev pub Entry : Type 0
Entry = ℕ × ℕ

pub record UtHash (T : Type 0) : Type 0 where
  -- The null table.
  pub empty : T
  -- HASH_ADD of the request at an address under an id.
  pub add : ℕ → ℕ → T → T
  -- HASH_DEL of the request at an address.
  pub del : ℕ → T → T
  -- HASH_FIND by id.
  pub find : ℕ → T → Option ℕ
  -- HASH_ITER, in its order, and HASH_COUNT.
  pub entries : T → List Entry
  pub count : T → ℕ

abbrev pub lookup : ℕ → List Entry → Option ℕ
lookup k [] = none
lookup k ((j, a) ∷ es) = let rest = lookup k es in if j == k then some a else rest

abbrev pub without : ℕ → List Entry → List Entry
without a [] = []
without a ((j, b) ∷ es) = let rest = without a es in if b == a then rest else (j, b) ∷ rest

abbrev pub UniqueKeys : List Entry → Type 0
UniqueKeys = DistinctBy (λ e. e.0)

-- What the documentation of uthash promises: the iteration goes in the order of insertion, and with
-- unique keys a search finds the item with the key.
pub record Laws {T : Type 0} (hash : UtHash T) : Type 0 where
  pub entries-empty : hash.entries hash.empty ≡ []
  pub entries-add :
      (k a : ℕ) (t : T) → hash.entries (hash.add k a t) ≡ hash.entries t ++ ((k, a) ∷ [])
  pub entries-del : (a : ℕ) (t : T) → hash.entries (hash.del a t) ≡ without a (hash.entries t)
  pub find-lookup :
      (k : ℕ) (t : T) → UniqueKeys (hash.entries t) → hash.find k t ≡ lookup k (hash.entries t)
  pub count-length : (t : T) → hash.count t ≡ length (hash.entries t)
