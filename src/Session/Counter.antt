-- ===== src/Session/Counter.antt =====
-- The TOTP challenge of `calculateTotpCounter`.
use yubikey_oath_krunner.Prelude.{
  ℕ, ◌+◌, ◌*◌, ◌/◌, ◌^◌, ◌<◌, ◌≡◌, refl, sym, ◌∙◌, List, [], ◌∷◌, some, arith, length, All,
}
use mathlib.Core.Path.{ap}
use yubikey_oath_krunner.Prelude.Bytes.{IsByte, byte}
use yubikey_oath_krunner.Session.Operations.{counter_bytes, totp_counter}

-- The number that bytes write, the most significant byte first.
abbrev pub be_value : ℕ → List ℕ → ℕ
be_value v [] = v
be_value v (b ∷ bs) = be_value (v * 256 + b) bs

byte_below : (x : ℕ) → IsByte (byte x)
byte_below x = omega arith

-- Eight bytes write a counter below 2^64 in big-endian order.
counter_bytes-value :
    (n : ℕ)
    → n < 2 ^ 64
    → (be_value 0 (counter_bytes n) ≡ n)
      × (length (counter_bytes n) ≡ 8)
      × All IsByte (counter_bytes n)
unfolding counter_bytes
counter_bytes-value n small =
    let top : 0 * 256 + byte (n / 2 ^ 56) ≡ n / 2 ^ 56 = omega arith in
    let s6 : n / 2 ^ 56 * 256 + byte (n / 2 ^ 48) ≡ n / 2 ^ 48 = omega arith in
    let s5 : n / 2 ^ 48 * 256 + byte (n / 2 ^ 40) ≡ n / 2 ^ 40 = omega arith in
    let s4 : n / 2 ^ 40 * 256 + byte (n / 2 ^ 32) ≡ n / 2 ^ 32 = omega arith in
    let s3 : n / 2 ^ 32 * 256 + byte (n / 2 ^ 24) ≡ n / 2 ^ 24 = omega arith in
    let s2 : n / 2 ^ 24 * 256 + byte (n / 2 ^ 16) ≡ n / 2 ^ 16 = omega arith in
    let s1 : n / 2 ^ 16 * 256 + byte (n / 2 ^ 8) ≡ n / 2 ^ 8 = omega arith in
    let s0 : n / 2 ^ 8 * 256 + byte n ≡ n = omega arith in
    (
      rw (top, s6, s5, s4, s3, s2, s1, s0) refl,
      refl,
      (
        byte_below _,
        (
          byte_below _,
          (
            byte_below _,
            (byte_below _, (byte_below _, (byte_below _, (byte_below _, (byte_below _, tt))))),
          ),
        ),
      ),
    )

-- The challenge of a period above 0 is eight bytes that write the number of the period the time lies
-- in, in big-endian order, as long as that number fits 64 bits.
pub totp_counter-value :
    (seconds period : ℕ)
    → 0 < period
    → seconds / period < 2 ^ 64
    → (challenge : List ℕ) × (totp_counter seconds period ≡ some challenge)
      × (be_value 0 challenge ≡ seconds / period)
      × (length challenge ≡ 8)
      × All IsByte challenge
unfolding totp_counter
totp_counter-value seconds period positive small =
    let (value, len, bytes) = counter_bytes-value (seconds / period) small in
    (counter_bytes (seconds / period), ground (arith, positive), value, len, bytes)

-- So two moments have the same challenge only if they lie in the same period.
pub totp_counter-injective :
    (s t period : ℕ)
    → 0 < period
    → s / period < 2 ^ 64
    → t / period < 2 ^ 64
    → totp_counter s period ≡ totp_counter t period
    → s / period ≡ t / period
totp_counter-injective s t period positive small small' e =
    let (c, at, value, _, _) = totp_counter-value s period positive small in
    let (d, at', value', _, _) = totp_counter-value t period positive small' in
    let same : c ≡ d = ground (arith, at, at', e) in sym value ∙ ap (be_value 0) same ∙ value'
