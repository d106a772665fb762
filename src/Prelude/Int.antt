-- ===== src/Prelude/Int.antt =====
-- Signed integers over the native numbers.
use Prim.Native.Nat.{ℕ, zero, suc}
use mathlib.Core.Bool.{Bool, true, false}

-- `negsuc n` is -(n + 1).
pub data ℤ : Type 0 where
  pos : ℕ → ℤ
  negsuc : ℕ → ℤ

-- `-n` where the flag is set, and `n` where it is not.
abbrev pub signed : Bool → ℕ → ℤ
signed true zero = pos zero
signed true (suc n) = negsuc n
signed false n = pos n

abbrev pub abs : ℤ → ℕ
abs (pos n) = n
abs (negsuc n) = suc n
