-- ===== src/Base/Integers.antt =====
-- Go's signed integers where a program tests their sign.
use Prim.Native.Nat.{ℕ}
use mathlib.Core.Bool.{Bool, false}
use herdr_phone.Base.Tests.{ltb}

-- `negsuc n` is -(n + 1).
pub data ℤ : Type 0 where
  pos : ℕ → ℤ
  negsuc : ℕ → ℤ

-- `0 < n`.
abbrev pub is_positive : ℤ → Bool
is_positive (pos n) = ltb 0 n
is_positive (negsuc n) = false

-- The value of an integer that has been found positive.
abbrev pub to_nat : ℤ → ℕ
to_nat (pos n) = n
to_nat (negsuc n) = 0
