-- ===== src/Argv/Held.antt =====
-- What the calls of Argv hold: acquiring the words one by one and releasing them in the same order.
use my_common.Common.{
  ℕ, zero, suc, ◌+◌, ◌<◌, ◌≤◌, Bool, true, false, Option, some, List, [], ◌∷◌, ◌++◌, ◌==◌, ◌≡◌,
  refl, ap, ◌∙◌, arith,
}
use mathlib.Core.List.{append_assoc}
use my_common.Common.Events.{Event, release, held_after, drop_one}
use my_common.Argv.{
  Resource, line, temp, array, word, word_resources, acquired, released, finish_fill, filled,
  no_memory_for, Argv, free_argv,
}

abbrev pub same : Resource → Resource → Bool
same line line = true
same temp temp = true
same array array = true
same (word i) (word j) = i == j
same _ _ = false

-- The copies of `k` words from the `a`-th on, the last one first.
abbrev latest : ℕ → ℕ → List Resource → List Resource
latest a zero held = held
latest a (suc k) held = latest (a + 1) k (word a ∷ held)

acquired-latest :
    (k a : ℕ) (es : List (Event Resource)) (held : List Resource)
    → held_after same (acquired (word_resources a k) ++ es) held
      ≡ held_after same es (latest a k held)
acquired-latest zero a es held = refl
acquired-latest (suc k) a es held = acquired-latest k (a + 1) es (word a ∷ held)

-- What is none of the words is dropped behind them.
drop_one-latest :
    (r : Resource) (k a : ℕ) (held rest : List Resource)
    → ((j : ℕ) → a ≤ j → same r (word j) ≡ false)
    → drop_one same r held ≡ some rest
    → drop_one same r (latest a k held) ≡ some (latest a k rest)
drop_one-latest r zero a held rest other e = e
drop_one-latest r (suc k) a held rest other e =
    drop_one-latest r k (a + 1) (word a ∷ held) (word a ∷ rest) (λ j h. other j (omega arith))
      (rw (other a (omega arith)) (rw e refl))

held_after-release :
    (r : Resource) (es : List (Event Resource)) (held rest : List Resource)
    → drop_one same r held ≡ some rest
    → held_after same (release r ∷ es) held ≡ held_after same es rest
held_after-release r es held rest e = rw (e, held_after) refl

same-words : (i j : ℕ) → i < j → same (word i) (word j) ≡ false
same-words i j h = ground arith

same-itself : (i : ℕ) → same (word i) (word i) ≡ true
same-itself i = ground arith

released-latest :
    (k a : ℕ) (es : List (Event Resource)) (held : List Resource)
    → held_after same (released (word_resources a k) ++ es) (latest a k held)
      ≡ held_after same es held
released-latest zero a es held = refl
released-latest (suc k) a es held =
    held_after-release (word a) (released (word_resources (a + 1) k) ++ es)
      (latest (a + 1) k (word a ∷ held)) (latest (a + 1) k held)
      (drop_one-latest (word a) k (a + 1) (word a ∷ held) held (λ j h. same-words a j (omega arith))
        (rw (same-itself a) refl))
    ∙ released-latest k (a + 1) es held

-- With no memory for one of the copies, all is released.
pub held-no_memory_for :
    (count i : ℕ) → held_after same (Argv.events (finish_fill count (no_memory_for i))) [] ≡ some []
held-no_memory_for count i =
    acquired-latest i 0 (released (word_resources 0 i) ++ (release array ∷ release line ∷ []))
      (array ∷ line ∷ [])
    ∙ released-latest i 0 (release array ∷ release line ∷ []) (array ∷ line ∷ [])

-- Otherwise the array and the copies are held, and `free_argv` releases them.
pub held-filled :
    (count : ℕ) (ws : List (Option (List ℕ)))
    → held_after same (Argv.events (finish_fill count (filled ws)) ++ free_argv count) [] ≡ some []
unfolding free_argv
held-filled count ws =
    ap (λ l. held_after same l (array ∷ line ∷ []))
      (append_assoc (acquired (word_resources 0 count)) (release line ∷ []) (free_argv count))
    ∙ acquired-latest count 0 (release line ∷ free_argv count) (array ∷ line ∷ [])
    ∙ held_after-release line (free_argv count) (latest 0 count (array ∷ line ∷ []))
        (latest 0 count (array ∷ []))
        (drop_one-latest line count 0 (array ∷ line ∷ []) (array ∷ []) (λ j h. refl) refl)
    ∙ released-latest count 0 (release array ∷ []) (array ∷ [])
