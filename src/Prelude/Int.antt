-- ===== src/Prelude/Int.antt =====
-- Whole numbers with a sign, for arguments that may be negative. `negsuc n` is -(n + 1).
use Prim.Native.String
use ai_serving_backend.Prelude.Tests.{ltb}
use Prim.Native.Nat.{ℕ, suc}
use Prim.Native.String.{String}
use mathlib.Core.Bool.{Bool, false}
use ai_serving_backend.Prelude.Text.{str_nat}

pub data ℤ : Type 0 where
  pos : ℕ → ℤ
  negsuc : ℕ → ℤ

-- n < value
unfoldable pub exceeds : ℕ → ℤ → Bool
exceeds n (pos m) = ltb n m
exceeds n (negsuc m) = false

-- str(value)
unfoldable pub str_int : ℤ → String
unfolding str_nat
str_int (pos n) = str_nat n
str_int (negsuc n) = String.◌++◌ "-" (str_nat (suc n))
