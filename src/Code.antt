-- ===== src/Code.antt =====
-- src/daemon/oath/oath_protocol.cpp, formatCode, and the brand-specific parseCode of
-- yk_oath_protocol.cpp and nitrokey_secrets_oath_protocol.cpp.
pub mod Format
pub mod Parse
use yubikey_oath_krunner.Prelude.{
  ℕ, zero, suc, ◌+◌, ◌*◌, ◌%◌, ◌^◌, List, [], ◌∷◌, none, some, true, false, ltb, leb, ◌==◌, ◌&&◌,
  if◌then◌else◌, length, get_or, not,
}
use yubikey_oath_krunner.Prelude.Text.{Qt}
use yubikey_oath_krunner.Tlv.{next_tlv}
use yubikey_oath_krunner.Status.{
  get_status_word, is_success, payload, sw_conditions_not_satisfied,
  sw_security_status_not_satisfied,
}
use yubikey_oath_krunner.Command.{tag_totp_response}

-- A text, or the fault of an integer division by zero, which is undefined behaviour in C++.
pub data Formatted : Type 0 where
  text : List ℕ → Formatted
  division_by_zero : Formatted

-- `for (j = 0; j < digits; ++j) modulo *= 10;` on a `quint32`.
pow10_loop : ℕ → ℕ → ℕ
pow10_loop zero modulo = modulo
pow10_loop (suc rounds) modulo = pow10_loop rounds (modulo * 10 % 2 ^ 32)

-- `for (j = 0; j < 4; ++j) codeValue = (codeValue << 8) | rawCode[1 + j];` on a `quint32`.
code_loop : ℕ → ℕ → List ℕ → ℕ → ℕ
code_loop zero j raw_code value = value
code_loop (suc rounds) j raw_code value =
    code_loop rounds (j + 1) raw_code (value * 256 % 2 ^ 32 + get_or raw_code (1 + j) 0)

-- `while (code.length() < digits) code.prepend('0');`. Each round adds a character, so `digits`
-- rounds are enough.
prepend_loop : ℕ → ℕ → List ℕ → List ℕ
prepend_loop zero digits code = code
prepend_loop (suc fuel) digits code = elim (ltb (length code) digits) [
  | true ↦ prepend_loop fuel digits (b'0' ∷ code)
  | false ↦ code
]

unfoldable pub format_code : Qt → List ℕ → ℕ → Formatted
unfolding pow10_loop code_loop prepend_loop
format_code qt raw_code digits =
    let value = code_loop 4 0 raw_code 0 in
    let modulo = pow10_loop digits 1 in
    if ltb (length raw_code) 5
    then text []
    else if modulo == 0
    then division_by_zero
    else text (prepend_loop digits digits (qt.number (value % modulo)))

-- The loop over the records: the first code of five bytes or more is formatted.
unfoldable pub parse_code_loop : Qt → ℕ → List ℕ → Formatted
parse_code_loop qt zero data' = text []
parse_code_loop qt (suc fuel) data' = elim (next_tlv data') [
  | none ↦ text []
  | some (tag, value, rest) ↦
      let later = parse_code_loop qt fuel rest in
      if tag == tag_totp_response && leb 5 (length value)
      then format_code qt value (get_or value 0 0)
      else later
]

-- YubiKey reports a missing touch by 0x6985, Nitrokey by 0x6982.
unfoldable pub yk_parse_code : Qt → List ℕ → Formatted
yk_parse_code qt response =
    let sw = get_status_word response in
    if ltb (length response) 2
    then text []
    else if sw == sw_conditions_not_satisfied
    then text []
    else if not (is_success sw)
    then text []
    else parse_code_loop qt (length (payload response)) (payload response)

unfoldable pub nitrokey_parse_code : Qt → List ℕ → Formatted
nitrokey_parse_code qt response =
    let sw = get_status_word response in
    if ltb (length response) 2
    then text []
    else if sw == sw_security_status_not_satisfied
    then text []
    else if not (is_success sw)
    then text []
    else parse_code_loop qt (length (payload response)) (payload response)
