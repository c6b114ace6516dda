-- ===== src/Ctos/Clock.antt =====
-- The readings of the clock of common/ctos.c, which goes round after 863,999 seconds, where the
-- arithmetic on readings goes round after 864,000.
use my_common.Common.{ℕ, ◌+◌, ◌-◌, ◌*◌, ◌/◌, ◌%◌, ◌≡◌, ◌≤◌, true, ltb, ◌==◌, if◌then◌else◌, arith}
use my_common.Ctos.{
  clocks_modulo, time_now, clocks, minus_clocks, time_after, time_minus, time_plus,
}

-- The reading at a time in milliseconds.
abbrev pub reading : ℕ → ℕ
reading t = time_now (t / 1000) (t % 1000 * 1000)

abbrev pub clock_round : ℕ
clock_round = 863999000

pub reading_lem : (t : ℕ) → reading t ≡ t % clock_round
unfolding time_now
reading_lem t = omega arith

-- For two times at most 431,999,000 ms apart, os_time_after orders the readings of os_time_now
-- also where the clock goes round, after 863,999 seconds, in between. Where it does not,
-- os_time_minus is the distance, with its sign, and os_time_plus the later reading. Where it
-- does, os_time_minus of the later and the earlier reading is 1000 ms more than the distance,
-- that of the earlier and the later one is the round of the clock less the distance, and
-- os_time_plus is the later reading with a round of the clock added, modulo 864,000 seconds.
pub time-order :
    (t d : ℕ)
    → d ≤ 431999000
    → (time_after (reading (t + d)) (reading t) ≡ true)
      × (time_after (reading t) (reading (t + d)) ≡ (d == 0))
      × (time_minus (reading (t + d)) (reading t)
          ≡ clocks (if ltb (reading t + d) clock_round then d else d + 1000))
      × (time_minus (reading t) (reading (t + d)) ≡ (
          if d == 0
          then clocks 0
          else if ltb (reading t + d) clock_round
          then minus_clocks d
          else clocks (clock_round - d)))
      × (time_plus (reading t) d ≡ (
          if ltb (reading t + d) clock_round
          then reading (t + d)
          else (reading (t + d) + clock_round) % clocks_modulo))
unfolding time_after time_minus time_plus
time-order t d h =
    rw (reading_lem t, reading_lem (t + d))
      (
        ground (arith, h),
        ground (arith, h),
        ground (arith, h),
        ground (arith, h),
        ground (arith, h),
      )
