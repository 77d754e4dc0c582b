-- ===== src/Serial/Found.antt =====
-- Where the serial number of a key comes from, and what becomes of it.
use yubikey_oath_krunner.Prelude.{
  ℕ, ◌^◌, ◌<◌, ◌≡◌, ◌≢◌, refl, true, false, List, [], ◌∷◌, ◌++◌, some, arith, ltb, ◌==◌, is_empty,
  length, length-append, take, drop, take-append, drop-append, All,
}
use yubikey_oath_krunner.Prelude.Bytes.{be32}
use yubikey_oath_krunner.Prelude.Digits.{IsDigit, decimal_value}
use yubikey_oath_krunner.Status.Laws.{successful, successful-status}
use yubikey_oath_krunner.Serial.{
  parse_otp_serial_response, parse_serial_response, all_digits, serial_here, find_serial,
  store_serial, parse_reader_name_info,
}

-- Both parsers read the same number, the first four bytes of a successful answer in big-endian
-- order, whatever stood in the output parameter and whatever follows the four bytes.
pub serial_response :
    (b0 b1 b2 b3 old : ℕ) (rest : List ℕ)
    → (parse_otp_serial_response (successful (b0 ∷ b1 ∷ b2 ∷ b3 ∷ rest)) old
        ≡ (be32 b0 b1 b2 b3, true))
      × (parse_serial_response (successful (b0 ∷ b1 ∷ b2 ∷ b3 ∷ rest)) old
          ≡ (be32 b0 b1 b2 b3, true))
unfolding parse_otp_serial_response parse_serial_response
serial_response b0 b1 b2 b3 old rest =
    let n = length-append rest (0x90 ∷ 0x00 ∷ []) in
    let long : ltb (length (successful (b0 ∷ b1 ∷ b2 ∷ b3 ∷ rest))) 6 ≡ false = ground (arith, n) in
    let ok = successful-status (b0 ∷ b1 ∷ b2 ∷ b3 ∷ rest) in
    (rw (long, ok) refl, rw (long, ok) refl)

all_digits-IsDigit : (digits : List ℕ) → All IsDigit digits → all_digits digits ≡ true
all_digits-IsDigit [] h = refl
all_digits-IsDigit (c ∷ cs) h = ground (arith, all_digits-IsDigit cs h.1)

-- Nothing in front of the serial number opens a parenthesis.
abbrev pub NoParenthesis : List ℕ → Type 0
NoParenthesis = All λ c. c ≢ b'('

module _ (digits suffix : List ℕ) (ten : length digits ≡ 10) (is_digit : All IsDigit digits) where
  abbrev pub serial_text : List ℕ
  serial_text = b'(' ∷ (digits ++ b')' ∷ suffix)

  taken : take 10 (digits ++ b')' ∷ suffix) ≡ digits
  taken = rw ten at (take-append digits (b')' ∷ suffix))

  dropped : drop 10 (digits ++ b')' ∷ suffix) ≡ b')' ∷ suffix
  dropped = rw ten at (drop-append digits (b')' ∷ suffix))

  here : serial_here serial_text ≡ some digits
  here = rw (taken, dropped, ten, all_digits-IsDigit digits is_digit) refl

  find_serial-at : find_serial serial_text ≡ some digits
  unfolding find_serial
  find_serial-at = rw (here, find_serial) refl

  find_serial-behind :
      (prefix : List ℕ) → NoParenthesis prefix → find_serial (prefix ++ serial_text) ≡ some digits
  unfolding find_serial
  find_serial-behind [] h = find_serial-at
  find_serial-behind (c ∷ cs) h =
      let other : (c == b'(') ≡ false = ground (arith, h.0) in
      rw (other, find_serial) (find_serial-behind cs h.1)

  not_empty_text : (prefix : List ℕ) → is_empty (prefix ++ serial_text) ≡ false
  not_empty_text [] = refl
  not_empty_text (c ∷ cs) = refl

  -- Ten digits in the first parentheses of the reader's name are the serial number, if they write a
  -- number of 32 bits that is not zero.
  pub reader_name-serial :
      (prefix : List ℕ)
      → NoParenthesis prefix
      → 0 < decimal_value 0 digits
      → decimal_value 0 digits < 2 ^ 32
      → ((parse_reader_name_info (prefix ++ serial_text)).serial_number ≡ decimal_value 0 digits)
        × ((parse_reader_name_info (prefix ++ serial_text)).valid ≡ true)
  unfolding parse_reader_name_info store_serial
  reader_name-serial prefix h positive small =
      let low : ltb (decimal_value 0 digits) (2 ^ 32) ≡ true = ground arith in
      let high : ltb 0 (decimal_value 0 digits) ≡ true = ground arith in
      (
        rw (not_empty_text prefix, find_serial-behind prefix h) (rw (low, high) refl),
        rw (not_empty_text prefix, find_serial-behind prefix h) (rw (low, high) refl),
      )
