-- ===== src/Code/Format.antt =====
-- What `formatCode` prints.
use native.Mathlib.Nat.{pow-suc, mod-lt, mod-eq_of_lt, add-mul-mod_self_right, mod-add-div'}
use yubikey_oath_krunner.Prelude.{
  ℕ, zero, suc, ◌+◌, ◌*◌, ◌%◌, ◌/◌, ◌^◌, ◌≤◌, ◌<◌, ◌≡◌, refl, sym, ◌∙◌, ap, inl, inr, false, not,
  ◌&&◌, List, ◌∷◌, arith, ltb, leb, ◌==◌, if◌then◌else◌, Bool-cases, table_holds, table_holds-at,
  length, All,
}
use yubikey_oath_krunner.Prelude.Bytes.{IsByte, be32}
use yubikey_oath_krunner.Prelude.Digits.{IsDigit, IsDecimal, decimal_value}
use yubikey_oath_krunner.Prelude.Text.{Qt}
use yubikey_oath_krunner.Code.{
  Formatted, text, division_by_zero, pow10_loop, code_loop, prepend_loop, format_code,
}

mod-mul : (x p m : ℕ) → x % m * p % m ≡ x * p % m
mod-mul x p m =
    sym (add-mul-mod_self_right (x % m * p) (x / m * p) m)
    ∙ ap (λ t. t % m) (omega (arith, ap (λ (t : ℕ). t * p) (mod-add-div' x m)))

pow10_loop_lem : (d m : ℕ) → m < 2 ^ 32 → pow10_loop d m ≡ m * 10 ^ d % 2 ^ 32
unfolding pow10_loop
pow10_loop_lem zero m h = omega arith
pow10_loop_lem (suc d) m h =
    pow10_loop_lem d (m * 10 % 2 ^ 32) (omega arith)
    ∙ mod-mul (m * 10) (10 ^ d) (2 ^ 32)
    ∙ ap (λ t. t % 2 ^ 32) (omega (arith, ap (λ (t : ℕ). m * t) (pow-suc 10 d)))

-- The modulus is the power of ten, as far as 32 bits hold it.
pow10_loop-one : (d : ℕ) → pow10_loop d 1 ≡ 10 ^ d % 2 ^ 32
pow10_loop-one d = pow10_loop_lem d 1 (omega arith) ∙ ap (λ t. t % 2 ^ 32) (omega arith)

-- It is zero from 32 digits on, and not before.
pow10-zero : (d : ℕ) → 32 ≤ d → 10 ^ d % 2 ^ 32 ≡ 0
pow10-zero zero h = absurd (omega arith)
pow10-zero (suc d) h = elim (Bool-cases (leb 32 d)) [
  | inl more ↦ omega (arith, pow-suc 10 d, pow10-zero d (ground arith))
  | inr last ↦ let e : d ≡ 31 = ground arith in rw e
]

pow10-nonzero : (d : ℕ) → d < 32 → (10 ^ d % 2 ^ 32 == 0) ≡ false
unfolding table_holds
pow10-nonzero d h =
    let e = table_holds-at (λ d. not (10 ^ d % 2 ^ 32 == 0)) 32 d h refl in ground arith

pow10_fits : (d : ℕ) → d < 10 → (0 < 10 ^ d) × (10 ^ d < 2 ^ 32)
unfolding table_holds
pow10_fits d h =
    let e = table_holds-at (λ d. ltb 0 (10 ^ d) && ltb (10 ^ d) (2 ^ 32)) 10 d h refl in
    ground arith

code_loop_lem :
    (n b0 b1 b2 b3 : ℕ) (rest : List ℕ)
    → IsByte b0
    → IsByte b1
    → IsByte b2
    → IsByte b3
    → code_loop 4 0 (n ∷ b0 ∷ b1 ∷ b2 ∷ b3 ∷ rest) 0 ≡ be32 b0 b1 b2 b3
unfolding code_loop
code_loop_lem n b0 b1 b2 b3 rest h0 h1 h2 h3 = omega arith

prepend_loop-step :
    (fuel digits : ℕ) (code : List ℕ)
    → prepend_loop (suc fuel) digits code
      ≡ (if ltb (length code) digits then prepend_loop fuel digits (b'0' ∷ code) else code)
unfolding prepend_loop
prepend_loop-step fuel digits code = ground arith

-- The padded text has as many digits as asked for and the same value.
abbrev Pads : ℕ → List ℕ → List ℕ → Type 0
Pads digits code padded =
    (length padded ≡ digits) × (decimal_value 0 padded ≡ decimal_value 0 code) × All IsDigit padded

prepend_loop-Pads :
    (fuel digits : ℕ) (code : List ℕ)
    → length code ≤ digits
    → digits ≤ fuel + length code
    → All IsDigit code
    → Pads digits code (prepend_loop fuel digits code)
prepend_loop-Pads zero digits code le enough h =
    (unfold prepend_loop in omega arith, unfold prepend_loop in refl, unfold prepend_loop in h)
prepend_loop-Pads (suc fuel) digits code le enough h =
    elim (Bool-cases (ltb (length code) digits)) [
      | inl more ↦
          rw (prepend_loop-step fuel digits code, more)
            (prepend_loop-Pads fuel digits (b'0' ∷ code) (ground arith) (omega arith)
              ((omega arith, omega arith), h))
      | inr done ↦ rw (prepend_loop-step fuel digits code, done) (ground arith, refl, h)
    ]

-- The text of `digits` decimal digits that stands for a number.
abbrev pub Shows : ℕ → ℕ → Formatted → Type 0
Shows digits n f =
    (t : List ℕ) × (f ≡ text t) × (length t ≡ digits) × (decimal_value 0 t ≡ n) × All IsDigit t

module _ (qt : Qt) (dec : IsDecimal qt.number) (n b0 b1 b2 b3 : ℕ) (rest : List ℕ) (h0 : IsByte b0)
    (h1 : IsByte b1) (h2 : IsByte b2) (h3 : IsByte b3) where
  format_code-text :
      (digits : ℕ)
      → digits < 32
      → format_code qt (n ∷ b0 ∷ b1 ∷ b2 ∷ b3 ∷ rest) digits
        ≡ text (prepend_loop digits digits (qt.number (be32 b0 b1 b2 b3 % (10 ^ digits % 2 ^ 32))))
  unfolding format_code
  format_code-text digits few =
      rw
        (
          code_loop_lem n b0 b1 b2 b3 rest h0 h1 h2 h3,
          pow10_loop-one digits,
          pow10-nonzero digits few,
        )
        (ground arith)

  -- For 1 to 9 digits the code is the number in the four bytes behind the first, modulo the power of
  -- ten, written with exactly that many digits.
  pub format_code-Shows :
      (digits : ℕ)
      → 1 ≤ digits
      → digits ≤ 9
      → Shows digits
          (be32 b0 b1 b2 b3 % 10 ^ digits)
          (format_code qt (n ∷ b0 ∷ b1 ∷ b2 ∷ b3 ∷ rest) digits)
  format_code-Shows zero lo hi = absurd (omega arith)
  format_code-Shows (suc k) lo hi =
      let (positive, small) = pow10_fits (suc k) (omega arith) in
      let modulus : 10 ^ suc k % 2 ^ 32 ≡ 10 ^ suc k = mod-eq_of_lt small in
      let code : ℕ = be32 b0 b1 b2 b3 % 10 ^ suc k in
      let below : code < 10 ^ suc k = mod-lt (be32 b0 b1 b2 b3) positive in
      let word : code < 2 ^ 32 = omega arith in
      let (padded, value, digits) =
        prepend_loop-Pads (suc k) (suc k) (qt.number code) (dec.shortest code k word below)
          (omega arith) (dec.digits code word) in
      (
        prepend_loop (suc k) (suc k) (qt.number code),
        rw (← modulus) (format_code-text (suc k) (omega arith)),
        padded,
        value ∙ dec.value code word,
        digits,
      )

-- From 32 digits on, `modulo` has wrapped to 0, and the remainder by it is undefined behaviour.
pub format_code-faults :
    (qt : Qt) (raw_code : List ℕ) (digits : ℕ)
    → 5 ≤ length raw_code
    → 32 ≤ digits
    → format_code qt raw_code digits ≡ division_by_zero
unfolding format_code
format_code-faults qt raw_code digits long many =
    rw (pow10_loop-one digits, pow10-zero digits many) (ground arith)
