-- ===== src/Prelude/Digits.antt =====
-- Texts of decimal digits: what they stand for, and what is taken of `QString::number`.
use Prim.Native.Nat.{ℕ, zero, suc, ◌+◌, ◌-◌, ◌*◌, ◌/◌, ◌%◌, ◌^◌, ◌≤◌, ◌<◌}
use mathlib.Core.Bool.{true, false}
use mathlib.Core.Path.{◌≡◌, ap, ◌∙◌}
use mathlib.Core.List.{List, [], ◌∷◌}
use native.Mathlib.Omega.{arith}
use native.Mathlib.Nat.{pow-suc}
use mathlib.Core.Logic.{inl, inr}
use yubikey_oath_krunner.Prelude.Tests.{◌==◌, Bool-cases, if◌then◌else◌}
use yubikey_oath_krunner.Prelude.Lists.{length, All}

abbrev pub IsDigit : ℕ → Type 0
IsDigit c = (b'0' ≤ c) × (c ≤ b'9')

-- The number that digits write behind those of `v`.
abbrev pub decimal_value : ℕ → List ℕ → ℕ
decimal_value v [] = v
decimal_value v (c ∷ cs) = decimal_value (v * 10 + (c - b'0')) cs

-- `QString::number` of a `quint32` writes its decimal digits, with no zero in front.
pub record IsDecimal (number : ℕ → List ℕ) : Type 0 where
  pub digits : (n : ℕ) → n < 2 ^ 32 → All IsDigit (number n)
  pub value : (n : ℕ) → n < 2 ^ 32 → decimal_value 0 (number n) ≡ n
  pub shortest : (n k : ℕ) → n < 2 ^ 32 → n < 10 ^ suc k → length (number n) ≤ suc k

-- A function that does so, for the examples: ten digits are enough for 32 bits.
decimal_loop : ℕ → ℕ → List ℕ → List ℕ
decimal_loop zero n acc = acc
decimal_loop (suc fuel) n acc = elim (n / 10 == 0) [
  | true ↦ (b'0' + n % 10) ∷ acc
  | false ↦ decimal_loop fuel (n / 10) ((b'0' + n % 10) ∷ acc)
]

unfoldable pub decimal : ℕ → List ℕ
unfolding decimal_loop
decimal n = decimal_loop 10 n []

decimal_loop-digits :
    (fuel n : ℕ) (acc : List ℕ) → All IsDigit acc → All IsDigit (decimal_loop fuel n acc)
unfolding decimal_loop
decimal_loop-digits zero n acc h = h
decimal_loop-digits (suc fuel) n acc h = ground (
  arith,
  decimal_loop-digits fuel (n / 10) ((b'0' + n % 10) ∷ acc) ((omega arith, omega arith), h),
)

last_digit :
    (v n : ℕ) (acc : List ℕ)
    → v * 10 + n % 10 ≡ n
    → decimal_value v ((b'0' + n % 10) ∷ acc) ≡ decimal_value n acc
last_digit v n acc h =
    let e : v * 10 + (b'0' + n % 10 - b'0') ≡ n = omega arith in ap (λ d. decimal_value d acc) e

decimal_loop-step :
    (fuel n : ℕ) (acc : List ℕ)
    → decimal_loop (suc fuel) n acc ≡ (
        if n / 10 == 0
        then (b'0' + n % 10) ∷ acc
        else decimal_loop fuel (n / 10) ((b'0' + n % 10) ∷ acc))
unfolding decimal_loop
decimal_loop-step fuel n acc = ground arith

decimal_loop-value :
    (fuel n : ℕ) (acc : List ℕ)
    → n < 10 ^ suc fuel
    → decimal_value 0 (decimal_loop (suc fuel) n acc) ≡ decimal_value n acc
decimal_loop-value zero n acc h =
    rw (decimal_loop-step 0 n acc) (ground (arith, last_digit 0 n acc (omega arith)))
decimal_loop-value (suc fuel) n acc h = elim (Bool-cases (n / 10 == 0)) [
  | inl done ↦ rw (decimal_loop-step (suc fuel) n acc, done) (last_digit 0 n acc (ground arith))
  | inr more ↦
      rw (decimal_loop-step (suc fuel) n acc, more)
        (decimal_loop-value fuel (n / 10) _ (omega (arith, pow-suc 10 (suc fuel)))
          ∙ last_digit (n / 10) n acc (omega arith))
]

decimal_loop-shortest :
    (fuel k n : ℕ) (acc : List ℕ)
    → n < 10 ^ suc k
    → length (decimal_loop fuel n acc) ≤ suc k + length acc
unfolding decimal_loop
decimal_loop-shortest zero k n acc h = omega arith
decimal_loop-shortest (suc fuel) zero n acc h = ground arith
decimal_loop-shortest (suc fuel) (suc k) n acc h = ground (
  arith,
  decimal_loop-shortest fuel k (n / 10) ((b'0' + n % 10) ∷ acc) (omega (arith, pow-suc 10 (suc k))),
)

pub decimal-IsDecimal : IsDecimal decimal
unfolding decimal
decimal-IsDecimal = record {
  digits = λ n h. decimal_loop-digits 10 n [] tt;
  value = λ n h. decimal_loop-value 9 n [] (omega arith);
  shortest = λ n k h lt. omega (arith, decimal_loop-shortest 10 k n [] lt);
}
