-- ===== src/Code/Parse.antt =====
-- The code in the response to CALCULATE.
use yubikey_oath_krunner.Prelude.{
  ℕ, zero, suc, ◌%◌, ◌^◌, ◌≤◌, ◌≡◌, refl, ◌∙◌, ◌&&◌, List, [], ◌∷◌, ◌++◌, arith, leb, ◌==◌,
  if◌then◌else◌, length, All, get_or, length-append,
}
use yubikey_oath_krunner.Prelude.Bytes.{IsByte, be32}
use yubikey_oath_krunner.Prelude.Digits.{IsDecimal}
use yubikey_oath_krunner.Prelude.Text.{Qt}
use yubikey_oath_krunner.Tlv.Walk.{Tlvs, done, more, next_tlv-shrinks}
use yubikey_oath_krunner.Tlv.RoundTrip.{Fits, encode, Tlvs-encode}
use yubikey_oath_krunner.Status.{get_status_word, payload, is_success}
use yubikey_oath_krunner.Status.Laws.{get_status_word-append, payload-append}
use yubikey_oath_krunner.Command.{tag_totp_response}
use yubikey_oath_krunner.Code.{
  Formatted, text, division_by_zero, format_code, parse_code_loop, yk_parse_code,
  nitrokey_parse_code,
}
use yubikey_oath_krunner.Code.Format.{Shows, format_code-Shows, format_code-faults}

-- The first response record that is long enough decides.
abbrev pub first_code : Qt → List (ℕ × List ℕ) → Formatted
first_code qt [] = text []
first_code qt ((tag, value) ∷ rs) =
    if tag == tag_totp_response && leb 5 (length value)
    then format_code qt value (get_or value 0 0)
    else first_code qt rs

parse_code_loop-Tlvs :
    (qt : Qt) (fuel : ℕ) {d : List ℕ} {rs : List (ℕ × List ℕ)}
    → Tlvs d rs
    → length d ≤ fuel
    → parse_code_loop qt fuel d ≡ first_code qt rs
unfolding parse_code_loop
parse_code_loop-Tlvs qt zero (done e) h = refl
parse_code_loop-Tlvs qt zero (more {d = d} e w) h = absurd (omega (arith, next_tlv-shrinks d e))
parse_code_loop-Tlvs qt (suc fuel) (done e) h = rw (e, parse_code_loop)
parse_code_loop-Tlvs qt (suc fuel) (more {d = d} {value = v} {rest = rest} {tag = t} e w) h =
    rw (e, parse_code_loop)
      (ground (arith, parse_code_loop-Tlvs qt fuel w (omega (arith, next_tlv-shrinks d e))))

abbrev response_of : List (ℕ × List ℕ) → ℕ → ℕ → List ℕ
response_of rs sw1 sw2 = encode rs ++ sw1 ∷ sw2 ∷ []

status : (rs : List (ℕ × List ℕ)) → get_status_word (response_of rs 0x90 0x00) ≡ 0x9000
status rs = get_status_word-append (encode rs) 0x90 0x00

get_payload : (rs : List (ℕ × List ℕ)) → payload (response_of rs 0x90 0x00) ≡ encode rs
get_payload rs = payload-append (encode rs) 0x90 0x00

-- On a successful response both brands print the first code record, whatever else is in it.
pub parse_code_first :
    (qt : Qt) (rs : List (ℕ × List ℕ))
    → All Fits rs
    → (yk_parse_code qt (response_of rs 0x90 0x00) ≡ first_code qt rs)
      × (nitrokey_parse_code qt (response_of rs 0x90 0x00) ≡ first_code qt rs)
unfolding yk_parse_code nitrokey_parse_code is_success
parse_code_first qt rs fits =
    let n = length-append (encode rs) (0x90 ∷ 0x00 ∷ []) in
    (
      ground (arith, n, status rs, get_payload rs, loop),
      ground (arith, n, status rs, get_payload rs, loop),
    )
  where
    loop : parse_code_loop qt (length (encode rs)) (encode rs) ≡ first_code qt rs
    loop = parse_code_loop-Tlvs qt (length (encode rs)) (Tlvs-encode rs fits) (omega arith)

-- The response to CALCULATE of one truncated code.
abbrev pub code_response : ℕ → ℕ → ℕ → ℕ → ℕ → List ℕ
code_response digits b0 b1 b2 b3 =
    response_of ((tag_totp_response, digits ∷ b0 ∷ b1 ∷ b2 ∷ b3 ∷ []) ∷ []) 0x90 0x00

module _ (qt : Qt) (digits b0 b1 b2 b3 : ℕ) (h0 : IsByte b0) (h1 : IsByte b1) (h2 : IsByte b2)
    (h3 : IsByte b3) where
  -- Both brands show a card's code with the card's number of digits, from 1 to 9.
  pub parse_code-Shows :
      IsDecimal qt.number
      → 1 ≤ digits
      → digits ≤ 9
      → Shows digits
          (be32 b0 b1 b2 b3 % 10 ^ digits)
          (yk_parse_code qt (code_response digits b0 b1 b2 b3))
        × Shows digits
            (be32 b0 b1 b2 b3 % 10 ^ digits)
            (nitrokey_parse_code qt (code_response digits b0 b1 b2 b3))
  parse_code-Shows dec lo hi =
      let (yk, nitrokey) =
        parse_code_first qt ((tag_totp_response, digits ∷ b0 ∷ b1 ∷ b2 ∷ b3 ∷ []) ∷ [])
          ((omega arith, omega arith), tt) in
      let s = format_code-Shows qt dec digits b0 b1 b2 b3 [] h0 h1 h2 h3 digits lo hi in
      (rw yk s, rw nitrokey s)

  -- A card that answers with 32 digits or more makes both divide by zero.
  pub parse_code-faults :
      32 ≤ digits
      → (yk_parse_code qt (code_response digits b0 b1 b2 b3) ≡ division_by_zero)
        × (nitrokey_parse_code qt (code_response digits b0 b1 b2 b3) ≡ division_by_zero)
  parse_code-faults many =
      let (yk, nitrokey) =
        parse_code_first qt ((tag_totp_response, digits ∷ b0 ∷ b1 ∷ b2 ∷ b3 ∷ []) ∷ [])
          ((omega arith, omega arith), tt) in
      let f = format_code-faults qt (digits ∷ b0 ∷ b1 ∷ b2 ∷ b3 ∷ []) digits (omega arith) many in
      (yk ∙ f, nitrokey ∙ f)
