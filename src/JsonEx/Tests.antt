-- ===== src/JsonEx/Tests.antt =====
-- Concrete runs of JsonEx.c.
use my_common.Common.{ℕ, true, false, none, some, List, [], ◌∷◌, ◌≡◌, refl, arith}
use my_common.Common.StateCode.{no_error, invalid_param, allocation_failure}
use my_common.Common.Events.{acquire, release}
use my_common.Cjson.Trees.{trees, trees-Laws, node, leaf, branch, int, text, other, Tree}
use my_common.JsonEx.{document, make_ids, parse_ids, parse_number_array}
use my_common.JsonEx.Arrays.{numbers_in, array_of, parse_number_array-numbers_in}
use my_common.JsonEx.Ids.{ids_read, make_ids-parse_ids}

-- [4, "x", 6]
abbrev mixed : Tree
mixed = node other (
    branch [] (node (int 4) leaf)
      (branch [] (node (text []) leaf) (branch [] (node (int 6) leaf) leaf)))

test_mixed :
    parse_number_array trees (some mixed) none true 5
    ≡ record { code = invalid_param; stored = 4 ∷ []; count = some 0 }
unfolding parse_number_array
test_mixed = refl

test_first :
    parse_number_array trees (some mixed) none true 1
    ≡ record { code = no_error; stored = 4 ∷ []; count = some 1 }
unfolding parse_number_array
test_first = refl

-- With no memory for the block the pointer is null, but the count is that of the array.
test_no_block :
    parse_ids trees false (some (1 ∷ 7 ∷ 1 ∷ 8 ∷ [])) true
    ≡ some (record {
      code = allocation_failure;
      ids = none;
      count = some 2;
      events = acquire document ∷ release document ∷ [];
    })
unfolding parse_ids
test_no_block = refl

parse_number_array-numbers_in_example :
    parse_number_array trees (some mixed) none true 5
    ≡ numbers_in trees 5 (array_of trees mixed none)
parse_number_array-numbers_in_example = parse_number_array-numbers_in trees mixed none 5

make_ids-parse_ids_example :
    (t : List ℕ) × (make_ids trees true (λ i. true) (some (7 ∷ 4000000000 ∷ [])) true
      ≡ (no_error, some t))
    × (parse_ids trees true (some t) true ≡ some (ids_read (7 ∷ 4000000000 ∷ [])))
make_ids-parse_ids_example =
    make_ids-parse_ids trees trees-Laws (λ i. true) (7 ∷ 4000000000 ∷ []) (λ j. refl) (omega arith)
