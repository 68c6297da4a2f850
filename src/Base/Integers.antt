-- ===== src/Base/Integers.antt =====
-- The integers that the code counts columns with: -1, and the indices of arrays.
use Prim.Native.Nat.{ℕ, zero, suc, ◌+◌}
use mathlib.Core.Bool.{Bool, true, false}
use mathlib.Core.Option.{Option, none}
use mathlib.Core.List.{List}
use mathlib.Core.Path.{◌≡◌, ap}
use mathlib.Core.Logic.{◌↔◌}
use native.Mathlib.Omega.{arith}
use chicken_road_b.Base.Tests.{◌==◌}
use chicken_road_b.Base.Lists.{get_elem?, includes}

pub data ℤ : Type 0 where
  pos negsuc : ℕ → ℤ

-- `x + 1`
abbrev pub suc_int : ℤ → ℤ
suc_int (pos n) = pos (n + 1)
suc_int (negsuc zero) = pos 0
suc_int (negsuc (suc n)) = negsuc n

abbrev pub same_int : ℤ → ℤ → Bool
same_int (pos a) (pos b) = a == b
same_int (negsuc a) (negsuc b) = a == b
same_int (pos a) (negsuc b) = false
same_int (negsuc a) (pos b) = false

-- `x >= 0`, `x < -1`
abbrev pub is_index : ℤ → Bool
is_index (pos n) = true
is_index (negsuc n) = false

abbrev pub below_start : ℤ → Bool
below_start (pos n) = false
below_start (negsuc zero) = false
below_start (negsuc (suc n)) = true

-- `array[x]`, and `numbers.includes(x)`
abbrev pub at_int {ℓ} : {A : Type ℓ} → List A → ℤ → Option A
at_int l (pos n) = get_elem? l n
at_int l (negsuc n) = none

abbrev pub includes_int : ℤ → List ℕ → Bool
includes_int (pos n) l = includes n l
includes_int (negsuc n) l = false

pub same_int_iff : (a b : ℤ) → (same_int a b ≡ true) ↔ (a ≡ b)
same_int_iff (pos a) (pos b) = ((λ h. ap pos (ground arith)), (λ h. ground arith))
same_int_iff (negsuc a) (negsuc b) = ((λ h. ap negsuc (ground arith)), (λ h. ground arith))
same_int_iff (pos a) (negsuc b) = ((λ h. cc), (λ h. cc))
same_int_iff (negsuc a) (pos b) = ((λ h. cc), (λ h. cc))
