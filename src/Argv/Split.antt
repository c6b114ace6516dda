-- ===== src/Argv/Split.antt =====
-- What `string_to_argv` returns, in terms of the words of the line.
use my_common.Common.{
  ℕ, zero, suc, ◌+◌, ◌<◌, Bool, true, false, ◌&&◌, none, some, List, [], ◌∷◌, ◌++◌, length, map,
  if◌then◌else◌, Bool-cases, inl, inr, ◌≡◌, refl, sym, ap, subst, ◌∙◌, arith,
}
use my_common.Common.Events.{Event, acquire, release, held_after}
use my_common.Argv.{
  Memory, Resource, line, Argv, copy_word, kept, null, array_of, Filled, filled, no_memory_for,
  count_tokens, fill_words, fill_array, finish_fill, string_to_argv, free_argv, no_array,
}
use my_common.Argv.Words.{words, no_more, first, next_token-Token}
use my_common.Argv.Held.{same, held-filled, held-no_memory_for}

-- There is memory for the copies of `k` words from the `i`-th on.
abbrev pub copies_ok : (ℕ → Bool) → ℕ → ℕ → Bool
copies_ok ok i zero = true
copies_ok ok i (suc k) = ok i && copies_ok ok (i + 1) k

-- There are words, and memory for the array and the copies.
abbrev pub serves : Memory → List (List ℕ) → Bool
serves m [] = false
serves m (w ∷ ws) =
    m.line_ok && (m.temp_ok && (m.array_ok && copies_ok m.word_ok 0 (length (w ∷ ws))))

count_tokens-words :
    (fuel : ℕ) (text : List ℕ) (n : ℕ)
    → length text < fuel
    → count_tokens fuel text n ≡ some (n + length (words text))
unfolding count_tokens
count_tokens-words zero text n h = ground arith
count_tokens-words (suc fuel) text n h = elim (next_token-Token text) [
  | no_more e w ↦ rw (e, w) (ap some (omega arith))
  | first t r e w l ↦
      rw (e, w) (count_tokens-words fuel r (n + 1) (omega arith) ∙ ap some (omega arith))
]

count_all :
    (fuel : ℕ) (text : List ℕ)
    → length text < fuel
    → count_tokens fuel text 0 ≡ some (length (words text))
count_all fuel text h = count_tokens-words fuel text 0 h ∙ ap some (omega arith)

-- The second pass over all the words of a text, or up to one that could not be copied.
data Filling (ok : ℕ → Bool) (i : ℕ) (ws : List (List ℕ)) (f : Filled) : Type 0 where
  all_copied : copies_ok ok i (length ws) ≡ true → f ≡ filled (map some ws) → Filling ok i ws f
  one_failed :
      (j : ℕ) → copies_ok ok i (length ws) ≡ false → f ≡ no_memory_for j → Filling ok i ws f

copy_word-Filling :
    (ok : ℕ → Bool) (i : ℕ) (t : List ℕ) (ws : List (List ℕ)) (later : Filled)
    → Filling ok (i + 1) ws later
    → Filling ok i (t ∷ ws) (copy_word (ok i) i t later)
copy_word-Filling ok i t ws later f = elim (Bool-cases (ok i)) [
  | inr n ↦ one_failed i (rw n refl) (rw n refl)
  | inl y ↦ elim f [
    | all_copied c e ↦ all_copied (rw (y, c) refl) (rw (y, e) refl)
    | one_failed j c e ↦ one_failed j (rw (y, c) refl) (rw (y, e) refl)
  ]
]

fill_words-Filling :
    (ws : List (List ℕ)) (text : List ℕ) (i : ℕ) (ok : ℕ → Bool)
    → words text ≡ ws
    → Filling ok i ws (fill_words (length ws) text i ok)
unfolding fill_words
fill_words-Filling [] text i ok e = all_copied refl refl
fill_words-Filling (w ∷ ws) text i ok e = elim (next_token-Token text) [
  | no_more n z ↦ cc
  | first t r n z l ↦
      let same_word : t ≡ w = cc in
      let later : words r ≡ ws = cc in
      rw (n, sym same_word)
        (copy_word-Filling ok i t ws (fill_words (length ws) r (i + 1) ok)
          (fill_words-Filling ws r (i + 1) ok later))
]

-- What the caller has, and that it can release it.
pub data Answer (m : Memory) (ws : List (List ℕ)) (r : Argv) : Type 0 where
  served :
      serves m ws ≡ true
      → r.argc ≡ length ws
      → r.argv ≡ array_of (map some ws ++ (none ∷ []))
      → held_after same (r.events ++ free_argv r.argc) [] ≡ some []
      → Answer m ws r
  refused :
      serves m ws ≡ false
      → r.argc ≡ 0
      → r.argv ≡ (if m.line_ok && m.temp_ok then null else kept)
      → held_after same r.events [] ≡ some []
      → Answer m ws r

fill_array-Answer :
    (m : Memory) (ws : List (List ℕ)) (text : List ℕ)
    → words text ≡ ws
    → m.line_ok ≡ true
    → m.temp_ok ≡ true
    → Answer m ws (fill_array m text (length ws))
unfolding fill_array
fill_array-Answer m [] text e l t = refused refl refl (rw (l, t) refl) refl
fill_array-Answer m (w ∷ ws) text e l t = elim (Bool-cases m.array_ok) [
  | inr n ↦
      subst (Answer m (w ∷ ws)) {x = no_array} (rw n refl)
        (refused (ground arith) refl (ground arith) refl)
  | inl y ↦ elim (fill_words-Filling (w ∷ ws) text 0 m.word_ok e) [
    | all_copied c f ↦
        subst (Answer m (w ∷ ws)) {x = finish_fill (length (w ∷ ws)) (filled (map some (w ∷ ws)))}
          (rw (y, f) refl)
          (served (ground arith) refl refl (held-filled (length (w ∷ ws)) (map some (w ∷ ws))))
    | one_failed j c f ↦
        subst (Answer m (w ∷ ws)) {x = finish_fill (length (w ∷ ws)) (no_memory_for j)}
          (rw (y, f) refl)
          (refused (ground arith) refl (ground arith) (held-no_memory_for (length (w ∷ ws)) j))
  ]
]

no_copy-Answer :
    (m : Memory) (ws : List (List ℕ)) (es : List (Event Resource))
    → (m.line_ok && m.temp_ok) ≡ false
    → held_after same es [] ≡ some []
    → Answer m ws (record { argc = 0; argv = kept; events = es })
no_copy-Answer m [] es n h = refused refl refl (rw n refl) h
no_copy-Answer m (w ∷ ws) es n h = refused (ground arith) refl (rw n refl) h

-- Of a line shorter than the fuel, string_to_argv returns the number of its words, with the array
-- of the words in order and a null pointer behind them, all of which free_argv then releases,
-- once each, exactly when there are words and memory for the two copies of the line, the array
-- and each word; otherwise it returns 0 and holds nothing, and the array is null unless a copy of
-- the line failed, in which case the caller's pointer is left as it was.
pub string_to_argv-Answer :
    (fuel : ℕ) (m : Memory) (text : List ℕ)
    → length text < fuel
    → (r : Argv) × (string_to_argv fuel m (some text) true ≡ some r) × Answer m (words text) r
unfolding string_to_argv
string_to_argv-Answer fuel m text h = elim (Bool-cases m.line_ok) [
  | inr n ↦ (_, rw n refl, no_copy-Answer m (words text) [] (ground arith) refl)
  | inl y ↦ elim (Bool-cases m.temp_ok) [
    | inr n ↦ (
      _,
      rw (y, n) refl,
      no_copy-Answer m (words text) (acquire line ∷ release line ∷ []) (ground arith) refl,
    )
    | inl z ↦
        (_, rw (y, z, count_all fuel text h) refl, fill_array-Answer m (words text) text refl y z)
  ]
]
