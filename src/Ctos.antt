-- ===== src/Ctos.antt =====
-- common/ctos.c: the arithmetic on 64-bit values in two 32-bit halves (`os_i64_*`), and the order of
-- readings of a clock that goes round (`os_time_*`); its message queues are in Messages,
-- its circular list in Rings.
pub mod Halves
pub mod Clock
pub mod Messages
pub mod Rings
mod Tests
use my_common.Common.{
  ℕ, zero, suc, ◌+◌, ◌-◌, ◌*◌, ◌/◌, ◌%◌, ◌^◌, Bool, true, false, not, ◌&&◌, ◌||◌, ltb, leb, ◌==◌,
  if◌then◌else◌,
}
use my_common.Common.Words.{u32_mod, u64_mod, add32, sub32, mul64, add64}

-- `U64`.
pub record U64 : Type 0 where
  pub msw : ℕ
  pub lsw : ℕ

unfoldable pub i64_equal : U64 → U64 → Bool
i64_equal a b = (a.msw == b.msw) && (a.lsw == b.lsw)

unfoldable pub i64_greater : U64 → U64 → Bool
i64_greater a b =
    if ltb b.msw a.msw then true else if (a.msw == b.msw) && ltb b.lsw a.lsw then true else false

unfoldable pub i64_less : U64 → U64 → Bool
i64_less a b =
    if ltb a.msw b.msw then true else if (a.msw == b.msw) && ltb a.lsw b.lsw then true else false

unfoldable pub i64_greater_or_equal : U64 → U64 → Bool
i64_greater_or_equal a b =
    if ltb b.msw a.msw then true else if (a.msw == b.msw) && leb b.lsw a.lsw then true else false

unfoldable pub i64_less_or_equal : U64 → U64 → Bool
i64_less_or_equal a b =
    if ltb a.msw b.msw then true else if (a.msw == b.msw) && leb a.lsw b.lsw then true else false

unfoldable pub i64_is_zero : U64 → Bool
i64_is_zero a = (a.msw == 0) && (a.lsw == 0)

-- `x & 0x80000000` of a 32-bit word; the bit of `x | y` is set where that of `x` or `y` is.
abbrev pub top_bit : ℕ → Bool
top_bit x = leb (2 ^ 31) x

unfoldable pub i64_add_u32 : U64 → ℕ → U64
i64_add_u32 a v =
    let low = add32 a.lsw v in
    let carry =
      ((top_bit a.lsw || top_bit v) && not (top_bit low)) || (top_bit a.lsw && top_bit v) in
    record { msw = if carry then add32 a.msw 1 else a.msw; lsw = low }

-- The `unsigned long long` of two halves, and its halves.
abbrev pub join : U64 → ℕ
join a = add64 (mul64 a.msw (2 ^ 32)) a.lsw

abbrev pub split : ℕ → U64
split v = record { msw = v / 2 ^ 32 % u32_mod; lsw = v % u32_mod }

unfoldable pub i64_add : U64 → U64 → U64
i64_add a b = split (add64 (join a) (join b))

unfoldable pub i64_sub_u32 : U64 → ℕ → U64
i64_sub_u32 a v = record { msw = sub32 a.msw (if ltb a.lsw v then 1 else 0); lsw = sub32 a.lsw v }

unfoldable pub i64_sub : U64 → U64 → U64
i64_sub a b = record {
  msw = sub32 (sub32 a.msw b.msw) (if ltb a.lsw b.lsw then 1 else 0);
  lsw = sub32 a.lsw b.lsw;
}

unfoldable pub i64_mul_u32 : U64 → ℕ → U64
i64_mul_u32 a v = split (mul64 (join a) v)

unfoldable pub i64_mul : U64 → U64 → U64
i64_mul a b = split (mul64 (join a) (join b))

unfoldable pub i64_div_u32 : U64 → ℕ → U64
i64_div_u32 a v = if v == 0 then record { msw = 0; lsw = 0 } else split (join a / v)

unfoldable pub i64_div : U64 → U64 → U64
i64_div a b =
    if (b.lsw == 0) && (b.msw == 0) then record { msw = 0; lsw = 0 } else split (join a / join b)

-- One round of the shifts. The mask 0x7FFFFFFF keeps what a shift to the right leaves, and the bit
-- that the other half gives is 0 before.
abbrev pub shift_right_one : U64 → U64
shift_right_one a = record {
  msw = a.msw / 2;
  lsw = if a.msw % 2 == 1 then a.lsw / 2 + 2 ^ 31 else a.lsw / 2;
}

abbrev pub shift_left_one : U64 → U64
shift_left_one a = record {
  msw = if top_bit a.lsw then a.msw * 2 % u32_mod + 1 else a.msw * 2 % u32_mod;
  lsw = a.lsw * 2 % u32_mod;
}

unfoldable pub i64_shift_right : U64 → ℕ → U64
i64_shift_right a zero = a
i64_shift_right a (suc n) = i64_shift_right (shift_right_one a) n

unfoldable pub i64_shift_left : U64 → ℕ → U64
i64_shift_left a zero = a
i64_shift_left a (suc n) = i64_shift_left (shift_left_one a) n

-- TIME_CLOCKS_MODULO. Readings of the clock are numbers below it; a `g_clock_t` is signed.
abbrev pub clocks_modulo : ℕ
clocks_modulo = 864000 * 1000

-- os_time_now, of the seconds and the microseconds of gettimeofday.
unfoldable pub time_now : ℕ → ℕ → ℕ
time_now sec usec = sec % (864000 - 1) * 1000 + usec / 1000

pub data Clocks : Type 0 where
  clocks : ℕ → Clocks
  minus_clocks : ℕ → Clocks

unfoldable pub time_after : ℕ → ℕ → Bool
time_after a b =
    if ltb a b then not (ltb (b - a) (clocks_modulo / 2)) else ltb (a - b) (clocks_modulo / 2)

unfoldable pub time_minus : ℕ → ℕ → Clocks
unfolding time_after
time_minus a b =
    if ltb a b
    then if not (time_after a b) then minus_clocks (b - a) else clocks (clocks_modulo + a - b)
    else clocks (a - b)

unfoldable pub time_plus : ℕ → ℕ → ℕ
time_plus a b = (a + b) % clocks_modulo
