-- ===== src/Argv/Words.antt =====
-- The words of a text, read byte by byte, and the tokens of `strtok`.
use my_common.Common.{
  ℕ, ◌<◌, ◌≤◌, false, Option, none, some, List, [], ◌∷◌, ◌++◌, length, ◌==◌, if◌then◌else◌,
  Bool-cases, inl, inr, ◌≡◌, refl, sym, ap, ◌∙◌, arith,
}
use mathlib.Core.List.{append_assoc, append-nil}
use my_common.Argv.{skip_spaces, take_word, token_of, next_token}

-- A word that has begun, before the later words.
abbrev pub flush : List ℕ → List (List ℕ) → List (List ℕ)
flush [] ws = ws
flush (c ∷ cs) ws = (c ∷ cs) ∷ ws

-- The words of a text behind the bytes of a word that has begun.
unfoldable pub words_from : List ℕ → List ℕ → List (List ℕ)
words_from cur [] = flush cur []
words_from cur (c ∷ cs) =
    let ends = flush cur (words_from [] cs) in
    let goes_on = words_from (cur ++ (c ∷ [])) cs in if c == 32 then ends else goes_on

unfoldable pub words : List ℕ → List (List ℕ)
unfolding words_from
words text = words_from [] text

skip_spaces-words : (text : List ℕ) → words (skip_spaces text) ≡ words text
unfolding words skip_spaces
skip_spaces-words [] = refl
skip_spaces-words (c ∷ cs) = ground (arith, skip_spaces-words cs)

length-skip_spaces : (text : List ℕ) → length (skip_spaces text) ≤ length text
unfolding skip_spaces
length-skip_spaces [] = omega arith
length-skip_spaces (c ∷ cs) = ground (arith, length-skip_spaces cs)

-- What is left begins with no space.
skip_spaces-first :
    (text : List ℕ) (c : ℕ) (cs : List ℕ) → skip_spaces text ≡ c ∷ cs → (c == 32) ≡ false
unfolding skip_spaces
skip_spaces-first [] c cs e = cc
skip_spaces-first (x ∷ xs) c cs e = elim (Bool-cases (x == 32)) [
  | inl y ↦ skip_spaces-first xs c cs (ground arith)
  | inr n ↦ ground arith
]

take_word-words :
    (d : ℕ) (cur text : List ℕ)
    → words_from (d ∷ cur) text ≡ ((d ∷ cur) ++ (take_word text).0) ∷ words (take_word text).1
unfolding words take_word
take_word-words d cur [] = ap (λ l. (d ∷ l) ∷ []) (sym (append-nil cur))
take_word-words d cur (c ∷ cs) = elim (Bool-cases (c == 32)) [
  | inl y ↦ rw y (ap (λ l. (d ∷ l) ∷ words_from [] cs) (sym (append-nil cur)))
  | inr n ↦ rw n (
      take_word-words d (cur ++ (c ∷ [])) cs
      ∙ ap (λ l. (d ∷ l) ∷ words_from [] (take_word cs).1)
          (append_assoc cur (c ∷ []) (take_word cs).0))
]

length-take_word : (text : List ℕ) → length (take_word text).1 ≤ length text
unfolding take_word
length-take_word [] = omega arith
length-take_word (c ∷ cs) = ground (arith, length-take_word cs)

-- The next token is the first word, and less text is behind it.
pub data Token (text : List ℕ) (answer : Option (List ℕ × List ℕ)) : Type 0 where
  no_more : answer ≡ none → words text ≡ [] → Token text answer
  first :
      (t r : List ℕ)
      → answer ≡ some (t, r)
      → words text ≡ t ∷ words r
      → length r < length text
      → Token text answer

words-take_word :
    (c : ℕ) (cs : List ℕ)
    → (c == 32) ≡ false
    → words (c ∷ cs) ≡ (c ∷ (take_word cs).0) ∷ words (take_word cs).1
unfolding words take_word
words-take_word c cs n = rw n (take_word-words c [] cs)

take_word-Token :
    (text : List ℕ) (c : ℕ) (cs : List ℕ)
    → skip_spaces text ≡ c ∷ cs
    → (c == 32) ≡ false
    → Token text (some (take_word (c ∷ cs)))
unfolding words take_word
take_word-Token text c cs e n = rw n (
    first (c ∷ (take_word cs).0) (take_word cs).1 refl
      (sym (skip_spaces-words text) ∙ ap words e ∙ words-take_word c cs n)
      (omega (arith, length-take_word cs, length-skip_spaces text, ap length e)))

token_of-Token : (text left : List ℕ) → skip_spaces text ≡ left → Token text (token_of left)
unfolding words
token_of-Token text [] e = no_more refl (sym (skip_spaces-words text) ∙ ap words e)
token_of-Token text (c ∷ cs) e = take_word-Token text c cs e (skip_spaces-first text c cs e)

pub next_token-Token : (text : List ℕ) → Token text (next_token text)
unfolding next_token
next_token-Token text = token_of-Token text (skip_spaces text) refl
