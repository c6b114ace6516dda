-- ===== src/Common/Heap.antt =====
-- Memory as a function from addresses, for the nodes of linked structures.
use mathlib.Core.Path.{◌≡◌}
use mathlib.Core.Logic.{◌≢◌}
use mathlib.Core.Option.{Option}
use Prim.Native.Nat.{ℕ}
use native.Mathlib.Omega.{arith}
use my_common.Common.Tests.{◌==◌, if◌then◌else◌}

-- The object at each address that is allocated.
abbrev pub Heap {ℓ} : Type ℓ → Type ℓ
Heap A = ℕ → Option A

abbrev pub store {ℓ} : {A : Type ℓ} → ℕ → Option A → Heap A → Heap A
store a v h b = if b == a then v else h b

module _ {ℓ} {A : Type ℓ} (a : ℕ) (v : Option A) (h : Heap A) where
  pub store-at : store a v h a ≡ v
  store-at = ground arith

  pub store-off : (b : ℕ) → b ≢ a → store a v h b ≡ h b
  store-off b ne = ground arith
