-- ===== src/Prelude/Bytes.antt =====
-- Bytes and big-endian numbers. A byte array is a list of numbers below 256.
use Prim.Native.Nat.{ℕ, ◌+◌, ◌*◌, ◌%◌, ◌^◌, ◌<◌}

-- `static_cast<char>(x)`, `static_cast<quint8>(x)` and `x & 0xFF`.
abbrev pub byte : ℕ → ℕ
byte x = x % 256

abbrev pub IsByte : ℕ → Type 0
IsByte b = b < 256

-- `(b0 << 24) | (b1 << 16) | (b2 << 8) | b3` of four bytes, as a `quint32`.
abbrev pub be32 : ℕ → ℕ → ℕ → ℕ → ℕ
be32 b0 b1 b2 b3 = b0 * 2 ^ 24 + b1 * 2 ^ 16 + b2 * 2 ^ 8 + b3
