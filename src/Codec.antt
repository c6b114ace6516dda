-- ===== src/Codec.antt =====
-- The searches in the codec tables of common/common.c.
pub mod Acodec
pub mod Vcodec
pub mod Names
mod Tests
use my_common.Common.{
  ℕ, ◌+◌, Bool, true, false, ◌&&◌, Option, none, some, List, [], ◌∷◌, map, leb, ◌==◌, if◌then◌else◌,
}
use my_common.Common.Strings.{str_eq}

-- `tolower` in the C locale.
abbrev pub lower : ℕ → ℕ
lower c = if leb 65 c && leb c 90 then c + 32 else c

-- `strcasecmp` gives 0.
abbrev pub str_case_eq : List ℕ → List ℕ → Bool
str_case_eq s t = str_eq (map lower s) (map lower t)

module _ {A : Type 0} (value : A → ℕ) where
  -- The loop of `get_vcodec_str` and of `get_acodec_str`.
  unfoldable pub name_of : ℕ → List (A × List ℕ) → Option (List ℕ)
  name_of id [] = none
  name_of id ((c, str) ∷ entries) =
      let later = name_of id entries in if value c == id then some str else later

  -- The loop of `get_vcodec_type` and of `get_acodec_type`, with the result behind it.
  unfoldable pub type_of : List ℕ → List (A × List ℕ) → ℕ → ℕ
  type_of s [] unknown = unknown
  type_of s ((c, str) ∷ entries) unknown =
      let later = type_of s entries unknown in if str_case_eq s str then value c else later
