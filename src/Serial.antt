-- ===== src/Serial.antt =====
-- src/daemon/oath/oath_protocol.cpp: the serial number as the OTP and the PIV application give it,
-- and as the PC/SC reader's name has it.
pub mod Found
use yubikey_oath_krunner.Prelude.{
  ℕ, ◌+◌, ◌-◌, ◌^◌, Bool, true, false, List, [], ◌∷◌, ◌++◌, Option, none, some, ltb, leb, ◌==◌,
  ◌&&◌, ◌||◌, not, if◌then◌else◌, is_empty, length, get_or, take, drop,
}
use yubikey_oath_krunner.Prelude.Bytes.{be32}
use yubikey_oath_krunner.Prelude.Digits.{decimal_value}
use yubikey_oath_krunner.Status.{get_status_word, is_success}

-- `parseOtpSerialResponse`: success and the output parameter, which stays as it was on failure.
unfoldable pub parse_otp_serial_response : List ℕ → ℕ → ℕ × Bool
parse_otp_serial_response response out_serial =
    let serial_bytes = take 4 response in
    if ltb (length response) 6
    then (out_serial, false)
    else if not (is_success (get_status_word response))
    then (out_serial, false)
    else (
      be32 (get_or serial_bytes 0 0) (get_or serial_bytes 1 0) (get_or serial_bytes 2 0)
          (get_or serial_bytes 3 0),
      true,
    )

unfoldable pub parse_serial_response : List ℕ → ℕ → ℕ × Bool
parse_serial_response response out_serial =
    if ltb (length response) 6
    then (out_serial, false)
    else if not (is_success (get_status_word response))
    then (out_serial, false)
    else (
      be32 (get_or response 0 0) (get_or response 1 0) (get_or response 2 0) (get_or response 3 0),
      true,
    )

pub record ReaderNameInfo : Type 0 where
  pub is_neo : Bool
  pub serial_number : ℕ
  pub form_factor : ℕ
  pub valid : Bool

abbrev pub no_info : ReaderNameInfo
no_info = record { is_neo = false; serial_number = 0; form_factor = 0; valid = false }

-- A letter in either case.
abbrev pub is_letter : ℕ → ℕ → Bool
is_letter upper c = c == upper || c == upper + 32

-- `contains("NEO", Qt::CaseInsensitive)`.
unfoldable pub contains_neo : List ℕ → Bool
contains_neo [] = false
contains_neo (a ∷ []) = false
contains_neo (a ∷ b ∷ []) = false
contains_neo (a ∷ b ∷ c ∷ rest) =
    (is_letter b'N' a && (is_letter b'E' b && is_letter b'O' c)) || contains_neo (b ∷ c ∷ rest)

abbrev pub all_digits : List ℕ → Bool
all_digits [] = true
all_digits (c ∷ cs) = if leb b'0' c && leb c b'9' then all_digits cs else false

-- The pattern `\((\d{10})\)` at the start of a text: the ten digits.
abbrev pub serial_here : List ℕ → Option (List ℕ)
serial_here [] = none
serial_here (c ∷ rest) =
    if c == b'('
      && (length (take 10 rest) == 10
          && (all_digits (take 10 rest) && get_or (drop 10 rest) 0 0 == b')'))
    then some (take 10 rest)
    else none

-- The first match in the text.
unfoldable pub find_serial : List ℕ → Option (List ℕ)
find_serial [] = none
find_serial (c ∷ rest) =
    let later = find_serial rest in
    elim (serial_here (c ∷ rest)) [ some digits ↦ some digits | none ↦ later ]

-- The match stored, if `toUInt` succeeds and the number is not zero.
unfoldable pub store_serial : Option (List ℕ) → ReaderNameInfo → ReaderNameInfo
store_serial none info = info
store_serial (some digits) info =
    let serial = decimal_value 0 digits in
    if ltb serial (2 ^ 32) && ltb 0 serial
    then record info { serial_number = serial; valid = true }
    else info

unfoldable pub parse_reader_name_info : List ℕ → ReaderNameInfo
parse_reader_name_info reader_name =
    let neo : ReaderNameInfo =
      if contains_neo reader_name
      then record { is_neo = true; serial_number = 0; form_factor = 1; valid = true }
      else no_info in
    if is_empty reader_name then no_info else store_serial (find_serial reader_name) neo
