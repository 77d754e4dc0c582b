-- ===== src/Prelude/Int.antt =====
-- The C++ `int`, where a value can be negative. `negsuc n` is -(n + 1).
use Prim.Native.Nat.{ℕ, ◌-◌, ◌%◌}
use mathlib.Core.Bool.{Bool, true, false}
use yubikey_oath_krunner.Prelude.Tests.{ltb, leb}

pub data ℤ : Type 0 where
  pos : ℕ → ℤ
  negsuc : ℕ → ℤ

-- `i < n` and `i > n` against a constant that is not negative.
abbrev pub lt_const : ℤ → ℕ → Bool
lt_const (pos m) n = ltb m n
lt_const (negsuc m) n = true

abbrev pub gt_const : ℤ → ℕ → Bool
gt_const (pos m) n = ltb n m
gt_const (negsuc m) n = false

abbrev pub le_const : ℤ → ℕ → Bool
le_const (pos m) n = leb m n
le_const (negsuc m) n = true

-- `static_cast<char>(i)`, in two's complement.
abbrev pub byte_of : ℤ → ℕ
byte_of (pos m) = m % 256
byte_of (negsuc m) = 255 - m % 256
