-- ===== src/Base/Integers.antt =====
-- Python's whole numbers, for the settings that may be below zero.
use Prim.Native.Nat.{ℕ, zero, suc, ◌+◌, ◌*◌}
use mathlib.Core.Bool.{Bool, true, false}
use rastir.Base.Tests.{ltb, leb}

-- `negsuc n` is `-(n + 1)`.
pub data ℤ : Type 0 where
  pos negsuc : ℕ → ℤ

-- `n < 0`
abbrev pub is_negative : ℤ → Bool
is_negative (pos n) = false
is_negative (negsuc n) = true

-- `n <= 0`
abbrev pub is_not_positive : ℤ → Bool
is_not_positive (pos n) = leb n 0
is_not_positive (negsuc n) = true

-- `n > bound`
abbrev pub exceeds : ℕ → ℤ → Bool
exceeds bound (pos n) = ltb bound n
exceeds bound (negsuc n) = false

-- `a <= b`
abbrev pub at_most : ℤ → ℤ → Bool
at_most (pos a) (pos b) = leb a b
at_most (pos a) (negsuc b) = false
at_most (negsuc a) (pos b) = true
at_most (negsuc a) (negsuc b) = leb b a

-- A number that is known not to be below zero.
abbrev pub magnitude : ℤ → ℕ
magnitude (pos n) = n
magnitude (negsuc n) = 0

-- `k * n`
abbrev pub times : ℕ → ℤ → ℤ
times k (pos n) = pos (k * n)
times zero (negsuc n) = pos 0
times (suc k) (negsuc n) = negsuc (k * (n + 1) + n)
