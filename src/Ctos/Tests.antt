-- ===== src/Ctos/Tests.antt =====
-- The arithmetic and the clock of common/ctos.c on concrete values.
use my_common.Common.{◌+◌, ◌≡◌, refl, true, ◌==◌, arith}
use my_common.Common.Words.{add64, sub64}
use my_common.Ctos.{
  time_now, U64, i64_add_u32, i64_sub_u32, i64_sub, clocks, time_after, time_minus, time_plus,
}
use my_common.Ctos.Halves.{IsWord, value, carry-value}
use my_common.Ctos.Clock.{time-order, reading}

abbrev one_and_all : U64
one_and_all = record { msw = 1; lsw = 4294967295 }

abbrev two_and_one : U64
two_and_one = record { msw = 2; lsw = 1 }

one_and_all-IsWord : IsWord one_and_all
one_and_all-IsWord = record { msw_lt = omega arith; lsw_lt = omega arith }

two_and_one-IsWord : IsWord two_and_one
two_and_one-IsWord = record { msw_lt = omega arith; lsw_lt = omega arith }

carried : i64_add_u32 one_and_all 1 ≡ record { msw = 2; lsw = 0 }
unfolding i64_add_u32
carried = refl

borrowed : i64_sub two_and_one one_and_all ≡ record { msw = 0; lsw = 2 }
unfolding i64_sub
borrowed = refl

carry-value_example :
    (value (i64_add_u32 two_and_one 1) ≡ add64 (value two_and_one) 1)
    × (value (i64_sub two_and_one one_and_all) ≡ sub64 (value two_and_one) (value one_and_all))
    × (value (i64_sub_u32 two_and_one 1) ≡ sub64 (value two_and_one) 1)
carry-value_example =
    carry-value two_and_one one_and_all 1 two_and_one-IsWord one_and_all-IsWord (omega arith)

time-order_example :
    (time_after (reading (863998990 + 20)) (reading 863998990) ≡ true)
    × (time_after (reading 863998990) (reading (863998990 + 20)) ≡ (20 == 0))
    × (time_minus (reading (863998990 + 20)) (reading 863998990) ≡ clocks 1020)
    × (time_minus (reading 863998990) (reading (863998990 + 20)) ≡ clocks 863998980)
    × (time_plus (reading 863998990) 20 ≡ 863999010)
unfolding time_now
time-order_example = time-order 863998990 20 (omega arith)
