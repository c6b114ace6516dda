-- ===== src/Common/Strings.antt =====
-- C strings as the lists of their bytes.
use Prim.Native.Nat.{ℕ}
use Prim.Native.Char.{code}
use Prim.Native.String.{String}
use mathlib.Core.Path.{◌≡◌, refl}
use mathlib.Core.Logic.{◌↔◌}
use mathlib.Core.Bool.{Bool, true, false, ◌&&◌}
use mathlib.Core.List.{List, [], ◌∷◌}
use native.Mathlib.Omega.{arith}
use my_common.Common.Tests.{◌==◌}

-- The bytes of a literal.
abbrev pub bytes : String → List ℕ
bytes String.[] = []
bytes (String.◌∷◌ c s) = code c ∷ bytes s

-- `strcmp` is 0.
unfoldable pub str_eq : List ℕ → List ℕ → Bool
str_eq [] [] = true
str_eq [] (y ∷ ys) = false
str_eq (x ∷ xs) [] = false
str_eq (x ∷ xs) (y ∷ ys) = x == y && str_eq xs ys

pub str_eq_iff : (xs ys : List ℕ) → (str_eq xs ys ≡ true) ↔ (xs ≡ ys)
unfolding str_eq
str_eq_iff [] [] = ((λ e. refl), (λ e. refl))
str_eq_iff [] (y ∷ ys) = ((λ e. cc), (λ e. cc))
str_eq_iff (x ∷ xs) [] = ((λ e. cc), (λ e. cc))
str_eq_iff (x ∷ xs) (y ∷ ys) =
    (λ e. ground (arith, (str_eq_iff xs ys).0), λ e. ground (arith, (str_eq_iff xs ys).1))
