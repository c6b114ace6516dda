-- ===== src/Argv.antt =====
-- `string_to_argv` and `free_argv` of common/common.c: a command line in words.
pub mod Words
pub mod Held
pub mod Split
mod Tests
use my_common.Common.{
  ℕ, zero, suc, ◌+◌, Bool, true, false, not, ◌||◌, Option, none, some, List, [], ◌∷◌, ◌++◌, length,
  ◌==◌, if◌then◌else◌,
}
use my_common.Common.Events.{Event, acquire, release}

-- The two copies of the line, the array, and the copy of each word.
pub data Resource : Type 0 where
  line temp array : Resource
  word : ℕ → Resource

-- Which allocations succeed; `word_ok` says it for the copy of each word.
pub record Memory : Type 0 where
  pub line_ok : Bool
  pub temp_ok : Bool
  pub array_ok : Bool
  pub word_ok : ℕ → Bool

-- `strtok` with " ": it skips spaces,
unfoldable pub skip_spaces : List ℕ → List ℕ
skip_spaces [] = []
skip_spaces (c ∷ cs) = let later = skip_spaces cs in if c == 32 then later else c ∷ cs

-- takes the bytes up to a space, and goes on behind it.
abbrev pub take_byte : Bool → ℕ → List ℕ → List ℕ × List ℕ → List ℕ × List ℕ
take_byte true c cs later = ([], cs)
take_byte false c cs later = (c ∷ later.0, later.1)

unfoldable pub take_word : List ℕ → List ℕ × List ℕ
take_word [] = ([], [])
take_word (c ∷ cs) = take_byte (c == 32) c cs (take_word cs)

abbrev pub token_of : List ℕ → Option (List ℕ × List ℕ)
token_of [] = none
token_of (c ∷ cs) = some (take_word (c ∷ cs))

unfoldable pub next_token : List ℕ → Option (List ℕ × List ℕ)
unfolding skip_spaces take_word
next_token text = token_of (skip_spaces text)

-- The first pass. Behind `fuel` rounds it gives none.
abbrev pub count_next : Option (List ℕ × List ℕ) → (List ℕ → ℕ → Option ℕ) → ℕ → Option ℕ
count_next none go n = some n
count_next (some (t, r)) go n = go r (n + 1)

unfoldable pub count_tokens : ℕ → List ℕ → ℕ → Option ℕ
count_tokens zero text n = none
count_tokens (suc fuel) text n = count_next (next_token text) (count_tokens fuel) n

-- The second pass: the array, or the index of the word that could not be copied.
pub data Filled : Type 0 where
  filled : List (Option (List ℕ)) → Filled
  no_memory_for : ℕ → Filled

abbrev pub behind : Option (List ℕ) → Filled → Filled
behind w (filled ws) = filled (w ∷ ws)
behind w (no_memory_for i) = no_memory_for i

abbrev pub copy_word : Bool → ℕ → List ℕ → Filled → Filled
copy_word true i t later = behind (some t) later
copy_word false i t later = no_memory_for i

abbrev pub fill_next : Option (List ℕ × List ℕ) → (List ℕ → Filled) → Bool → ℕ → Filled
fill_next none go ok i = behind none (go [])
fill_next (some (t, r)) go ok i = copy_word ok i t (go r)

unfoldable pub fill_words : ℕ → List ℕ → ℕ → (ℕ → Bool) → Filled
fill_words zero text i ok = filled []
fill_words (suc rounds) text i ok =
    fill_next (next_token text) (λ r. fill_words rounds r (i + 1) ok) (ok i) i

-- The copies of the words from the `i`-th on.
abbrev pub word_resources : ℕ → ℕ → List Resource
word_resources i zero = []
word_resources i (suc k) = word i ∷ word_resources (i + 1) k

abbrev pub acquired : List Resource → List (Event Resource)
acquired [] = []
acquired (r ∷ rs) = acquire r ∷ acquired rs

abbrev pub released : List Resource → List (Event Resource)
released [] = []
released (r ∷ rs) = release r ∷ released rs

-- What `*argv` is behind the call.
pub data Stored : Type 0 where
  kept null : Stored
  array_of : List (Option (List ℕ)) → Stored

-- What the function returns, what it stores, and what it acquired and released.
pub record Argv : Type 0 where
  pub argc : ℕ
  pub argv : Stored
  pub events : List (Event Resource)

-- The line, and the copy of it for the first pass.
abbrev pub counted : List (Event Resource)
counted = acquire line ∷ acquire temp ∷ release temp ∷ []

abbrev pub finish_fill : ℕ → Filled → Argv
finish_fill count (filled ws) = record {
  argc = count;
  argv = array_of (ws ++ (none ∷ []));
  events = counted ++ (acquire array ∷ (acquired (word_resources 0 count) ++ (release line ∷ [])));
}
finish_fill count (no_memory_for i) = record {
  argc = 0;
  argv = null;
  events =
      counted
      ++ (acquire array
          ∷ (acquired (word_resources 0 i)
              ++ (released (word_resources 0 i) ++ (release array ∷ release line ∷ []))));
}

abbrev pub no_array : Argv
no_array = record { argc = 0; argv = null; events = counted ++ (release line ∷ []) }

unfoldable pub fill_array : Memory → List ℕ → ℕ → Argv
fill_array m text zero = no_array
fill_array m text (suc k) =
    if m.array_ok then finish_fill (suc k) (fill_words (suc k) text 0 m.word_ok) else no_array

abbrev pub split_counted : Memory → List ℕ → Option ℕ → Option Argv
split_counted m text none = none
split_counted m text (some count) = some (fill_array m text count)

-- `string_to_argv`; `none` is a null line, and `wanted` says whether there is a place for the
-- array. The first pass runs on fuel.
unfoldable pub string_to_argv : ℕ → Memory → Option (List ℕ) → Bool → Option Argv
string_to_argv fuel m none wanted = some (record { argc = 0; argv = kept; events = [] })
string_to_argv fuel m (some text) wanted =
    if not wanted || not m.line_ok
    then some (record { argc = 0; argv = kept; events = [] })
    else if not m.temp_ok
    then some (record { argc = 0; argv = kept; events = acquire line ∷ release line ∷ [] })
    else split_counted m text (count_tokens fuel text 0)

-- What `free_argv` releases.
unfoldable pub free_argv : ℕ → List (Event Resource)
free_argv argc = released (word_resources 0 argc) ++ (release array ∷ [])
