-- ===== src/Base/Int.antt =====
-- Exit codes: Python's `int`, as `pos n` and `negsuc n`, which is -(n + 1).
use Prim.Native.Nat.{ℕ, zero, suc}
use mathlib.Core.Path.{◌≡◌}
use mathlib.Core.Logic.{◌↔◌}
use mathlib.Core.Bool.{Bool, true, false}
use native.Mathlib.Omega.{arith}

pub data ℤ : Type 0 where
  pos : ℕ → ℤ
  negsuc : ℕ → ℤ

-- `rc != 0`
abbrev pub nonzero : ℤ → Bool
nonzero (pos zero) = false
nonzero (pos (suc n)) = true
nonzero (negsuc n) = true

pub nonzero_iff : (z : ℤ) → (nonzero z ≡ false) ↔ (z ≡ pos 0)
nonzero_iff (pos zero) = ground arith
nonzero_iff (pos (suc n)) = ground arith
nonzero_iff (negsuc n) = ground arith
