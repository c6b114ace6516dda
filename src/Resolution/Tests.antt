-- ===== src/Resolution/Tests.antt =====
-- Concrete runs of `GetSizeFromString`.
use my_common.Common.{
  ℕ, ◌^◌, ◌<◌, Bool, true, false, ◌&&◌, Option, none, some, ltb, if◌then◌else◌, ◌≡◌, refl, arith,
}
use my_common.Common.Strings.{bytes, str_eq}
use my_common.Resolution.{
  size, unknown, scan_size, scan_int, skip_white, scan_digits, read_digits, get_size_from_string,
}
use my_common.Resolution.Scan.{get_size_from_string-decimal}

-- An int of 32 bits.
abbrev int_of : Bool → ℕ → Option ℕ
int_of true n = none
int_of false n = if ltb 0 n && ltb n 2147483648 then some n else none

int_of-ints : (n : ℕ) → 0 < n → n < 2 ^ 31 → int_of false n ≡ some n
int_of-ints n p l = ground arith

test_4k : get_size_from_string int_of (some (bytes "4K")) true ≡ size 3840 2160
unfolding get_size_from_string scan_size scan_int skip_white scan_digits read_digits str_eq
test_4k = refl

test_480p : get_size_from_string int_of (some (bytes "480p")) true ≡ size 854 480
unfolding get_size_from_string scan_size scan_int skip_white scan_digits read_digits str_eq
test_480p = refl

-- " 64x+48!": spaces before a number and a sign are read over, and what is behind the size.
test_signs : get_size_from_string int_of (some (bytes " 64x+48!")) true ≡ size 64 48
unfolding get_size_from_string scan_size scan_int skip_white scan_digits read_digits str_eq
test_signs = refl

test_negative : get_size_from_string int_of (some (bytes "-1x2")) true ≡ unknown
unfolding get_size_from_string scan_size scan_int skip_white scan_digits read_digits str_eq
test_negative = refl

get_size_from_string-decimal_example :
    get_size_from_string int_of (some (bytes "64x048!")) true ≡ size 64 48
get_size_from_string-decimal_example =
    get_size_from_string-decimal int_of 54 48 (bytes "4") (bytes "48") (bytes "!") int_of-ints refl
      refl refl (omega arith) (omega arith) (omega arith) (omega arith)
