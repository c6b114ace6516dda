-- ===== src/Argv/Tests.antt =====
-- Concrete runs of `string_to_argv`.
use my_common.Common.{ℕ, true, Option, none, some, List, [], ◌∷◌, ltb, ◌≡◌, refl, arith}
use my_common.Common.Strings.{bytes}
use my_common.Argv.{
  Memory, Argv, Stored, null, array_of, string_to_argv, count_tokens, fill_words, next_token,
  skip_spaces, take_word, fill_array,
}
use my_common.Argv.Words.{words}
use my_common.Argv.Split.{Answer, string_to_argv-Answer}

-- " ls  -l": two words with spaces before and between.
abbrev ls : List ℕ
ls = 32 ∷ 108 ∷ 115 ∷ 32 ∷ 32 ∷ 45 ∷ 108 ∷ []

abbrev enough : Memory
enough = record { line_ok = true; temp_ok = true; array_ok = true; word_ok = λ i. true }

abbrev one_word : Memory
one_word = record enough { word_ok = λ i. ltb i 1 }

abbrev stored_by : Option Argv → Option Stored
stored_by none = none
stored_by (some r) = some (r.argv)

test_two_words :
    stored_by (string_to_argv 9 enough (some ls) true)
    ≡ some (array_of (some (bytes "ls") ∷ some (bytes "-l") ∷ none ∷ []))
unfolding string_to_argv count_tokens fill_words fill_array next_token skip_spaces take_word
test_two_words = refl

test_no_memory : stored_by (string_to_argv 9 one_word (some ls) true) ≡ some null
unfolding string_to_argv count_tokens fill_words fill_array next_token skip_spaces take_word
test_no_memory = refl

test_only_spaces : stored_by (string_to_argv 9 enough (some (bytes "  ")) true) ≡ some null
unfolding string_to_argv count_tokens fill_words fill_array next_token skip_spaces take_word
test_only_spaces = refl

string_to_argv-Answer_example :
    (r : Argv) × (string_to_argv 9 enough (some ls) true ≡ some r) × Answer enough (words ls) r
string_to_argv-Answer_example = string_to_argv-Answer 9 enough ls (omega arith)
