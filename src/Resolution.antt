-- ===== src/Resolution.antt =====
-- `GetSizeFromString` of common/common.c, with the `sscanf` by "%dx%d" that it starts with.
pub mod Scan
mod Tests
use my_common.Common.{
  ℕ, zero, ◌+◌, ◌*◌, ◌-◌, Bool, true, false, not, ◌&&◌, ◌||◌, Option, none, some, List, [], ◌∷◌,
  leb, ◌==◌, if◌then◌else◌,
}
use my_common.Common.Strings.{bytes, str_eq}

abbrev pub is_digit : ℕ → Bool
is_digit c = leb 48 c && leb c 57

-- `isspace` in the C locale.
abbrev pub is_space : ℕ → Bool
is_space c = c == 32 || (leb 9 c && leb c 13)

unfoldable pub skip_white : List ℕ → List ℕ
skip_white [] = []
skip_white (c ∷ cs) = let later = skip_white cs in if is_space c then later else c ∷ cs

-- The number behind the digits read so far, and the text behind it.
abbrev pub next_digit : Bool → ℕ → List ℕ → ℕ × List ℕ → ℕ × List ℕ
next_digit true n text later = later
next_digit false n text later = (n, text)

unfoldable pub read_digits : ℕ → List ℕ → ℕ × List ℕ
read_digits n [] = (n, [])
read_digits n (c ∷ cs) = next_digit (is_digit c) n (c ∷ cs) (read_digits (n * 10 + (c - 48)) cs)

-- At least one digit; the Boolean says that a minus sign stands before it.
pub record Scanned : Type 0 where
  pub negative : Bool
  pub number : ℕ
  pub left : List ℕ

unfoldable pub scan_digits : Bool → List ℕ → Option Scanned
scan_digits negative [] = none
scan_digits negative (c ∷ cs) =
    if is_digit c
    then (let (n, rest) = read_digits 0 (c ∷ cs) in
        some (record { negative = negative; number = n; left = rest }))
    else none

abbrev pub scan_sign : List ℕ → Option Scanned
scan_sign [] = none
scan_sign (c ∷ cs) =
    if c == 45
    then scan_digits true cs
    else if c == 43
    then scan_digits false cs
    else scan_digits false (c ∷ cs)

-- "%d".
unfoldable pub scan_int : List ℕ → Option Scanned
scan_int text = scan_sign (skip_white text)

-- The "x" of the format.
abbrev pub scan_x : List ℕ → Option (List ℕ)
scan_x [] = none
scan_x (c ∷ cs) = if c == 120 then some cs else none

abbrev pub both : Scanned → Option Scanned → Option (Scanned × Scanned)
both w none = none
both w (some h) = some (w, h)

abbrev pub scan_height : Scanned → Option (List ℕ) → Option (Scanned × Scanned)
scan_height w none = none
scan_height w (some text) = both w (scan_int text)

abbrev pub scan_behind : Option Scanned → Option (Scanned × Scanned)
scan_behind none = none
scan_behind (some w) = scan_height w (scan_x w.left)

-- `sscanf` by "%dx%d" gives 2.
unfoldable pub scan_size : List ℕ → Option (Scanned × Scanned)
scan_size text = scan_behind (scan_int text)

-- -1 with nothing stored, -1 with zeros stored, or 0 with a size stored.
pub data Size : Type 0 where
  invalid unknown : Size
  size : ℕ → ℕ → Size

abbrev pub named_size : List ℕ → Size
named_size s =
    if str_eq s (bytes "4K") || str_eq s (bytes "4k")
    then size 3840 2160
    else if str_eq s (bytes "1080P") || str_eq s (bytes "1080p")
    then size 1920 1080
    else if str_eq s (bytes "720P") || str_eq s (bytes "720p")
    then size 1280 720
    else if str_eq s (bytes "480P") || str_eq s (bytes "480p")
    then size 854 480
    else unknown

-- Both numbers are positive.
abbrev pub scanned_size : List ℕ → Option ℕ → Option ℕ → Size
scanned_size s (some w) (some h) = size w h
scanned_size s (some w) none = named_size s
scanned_size s none h = named_size s

abbrev pub size_of : (Bool → ℕ → Option ℕ) → List ℕ → Option (Scanned × Scanned) → Size
size_of int_of s none = named_size s
size_of int_of s (some (w, h)) =
    scanned_size s (int_of w.negative w.number) (int_of h.negative h.number)

-- `int_of` is the value, where positive, that `sscanf` stores for the digits of a number behind
-- a sign; the language leaves it open for numbers beyond an int.
unfoldable pub get_size_from_string : (Bool → ℕ → Option ℕ) → Option (List ℕ) → Bool → Size
get_size_from_string int_of none wanted = invalid
get_size_from_string int_of (some s) wanted =
    if wanted then size_of int_of s (scan_size s) else invalid
