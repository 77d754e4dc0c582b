-- ===== src/Listing/Calculated.antt =====
-- CALCULATE ALL on YubiKey.
use mathlib.Core.List.{map}
use native.Mathlib.Nat.{mod-lt, mul-mod_left, div-add-mod'}
use yubikey_oath_krunner.Prelude.{
  ℕ, zero, suc, ◌+◌, ◌-◌, ◌*◌, ◌/◌, ◌%◌, ◌≤◌, ◌<◌, ◌≡◌, refl, ◌∙◌, ap, true, false, List, [], ◌∷◌,
  ◌++◌, append_assoc, append-nil, arith, length, length-append, get_or, All,
}
use yubikey_oath_krunner.Prelude.Text.{Qt}
use yubikey_oath_krunner.Tlv.{next_tlv, tlv}
use yubikey_oath_krunner.Tlv.RoundTrip.{Fits, encode, next_tlv-tlv}
use yubikey_oath_krunner.Status.Laws.{successful, guards_pass}
use yubikey_oath_krunner.Credential.{OathCredential, hotp, totp}
use yubikey_oath_krunner.CredentialId.Laws.{period_positive}
use yubikey_oath_krunner.Command.{tag_name, tag_totp_response, tag_hotp, tag_touch}
use yubikey_oath_krunner.Code.{text, format_code}
use yubikey_oath_krunner.Code.Format.{format_code-faults}
use yubikey_oath_krunner.Listing.{
  credentials, faulted, updated, update_faulted, named_credential, set_code, apply_response,
  calculate_all_loop, yk_parse_calculate_all_response,
}

named-period : (qt : Qt) (name : List ℕ) → 0 < (named_credential qt name).period
unfolding named_credential
named-period qt name = (period_positive (qt.from_utf8 name)).0

-- The code stays valid to the end of the period that `now` lies in: longer than now, by one period at
-- most, and at a multiple of the period.
abbrev pub ValidAfter : ℕ → OathCredential → Type 0
ValidAfter now cred =
    (now < cred.valid_until)
    × (cred.valid_until ≤ now + cred.period)
    × (cred.valid_until % cred.period ≡ 0)

-- The credential with a code that was calculated now.
abbrev pub with_code : ℕ → ℕ → List ℕ → OathCredential → OathCredential
with_code now digits code cred = record cred {
  code = code;
  digits = digits;
  type = totp;
  valid_until = now + (cred.period - now % cred.period);
}

set_code-with_code :
    (now digits : ℕ) (code : List ℕ) (cred : OathCredential)
    → 0 < cred.period
    → set_code now digits (text code) cred ≡ updated (with_code now digits code cred)
unfolding set_code
set_code-with_code now digits code cred pos = ground arith

-- A code that is stored with its validity stays valid to the end of its period, if that is above zero.
pub with_code-ValidAfter :
    (now digits : ℕ) (code : List ℕ) (cred : OathCredential)
    → 0 < cred.period
    → ValidAfter now (with_code now digits code cred)
with_code-ValidAfter now digits code cred pos =
    let below : now % cred.period < cred.period = mod-lt now pos in
    let multiple : now + (cred.period - now % cred.period) ≡ (now / cred.period + 1) * cred.period =
      omega (arith, div-add-mod' now cred.period) in
    (omega arith, omega arith, rw multiple (mul-mod_left (now / cred.period + 1) cred.period))

-- An entry of the response: a name and what the card says of it.
pub data Entry : Type 0 where
  touch : List ℕ → List ℕ → Entry
  counter : List ℕ → List ℕ → Entry
  code_of : List ℕ → List ℕ → List ℕ → Entry

abbrev pub name_of : Entry → List ℕ
name_of (touch name value) = name
name_of (counter name value) = name
name_of (code_of name value t) = name

abbrev pub answer_of : Entry → ℕ × List ℕ
answer_of (touch name value) = (tag_touch, value)
answer_of (counter name value) = (tag_hotp, value)
answer_of (code_of name value t) = (tag_totp_response, value)

abbrev pub records : List Entry → List (ℕ × List ℕ)
records [] = []
records (e ∷ es) = (tag_name, name_of e) ∷ answer_of e ∷ records es

-- Its records fit, and `t` is what the value formats to.
abbrev pub Formats : Qt → Entry → Type 0
Formats qt (touch name value) = Unit {0}
Formats qt (counter name value) = Unit {0}
Formats qt (code_of name value t) =
    (5 ≤ length value) × (format_code qt value (get_or value 0 0) ≡ text t)

abbrev pub IsSound : Qt → Entry → Type 0
IsSound qt e = Fits (tag_name, name_of e) × Fits (answer_of e) × Formats qt e

-- The credential that it stands for.
abbrev pub meaning : Qt → ℕ → Entry → OathCredential
meaning qt now (touch name value) = record (named_credential qt name) { requires_touch = true }
meaning qt now (counter name value) = record (named_credential qt name) {
  is_totp = false;
  type = hotp;
  period = 0;
}
meaning qt now (code_of name value t) =
    with_code now (get_or value 0 0) t (named_credential qt name)

-- One round of the loop over a name and the record behind it.
loop_round :
    (qt : Qt) (now fuel resp_tag : ℕ) (name value tail : List ℕ) (found : List OathCredential)
    (cred : OathCredential)
    → Fits (tag_name, name)
    → Fits (resp_tag, value)
    → apply_response qt now resp_tag value (named_credential qt name) ≡ updated cred
    → calculate_all_loop qt now (suc fuel) (tlv tag_name name ++ (tlv resp_tag value ++ tail)) found
      ≡ calculate_all_loop qt now fuel tail (found ++ cred ∷ [])
unfolding calculate_all_loop
loop_round qt now fuel resp_tag name value tail found cred fn fv e =
    rw (next_tlv-tlv tag_name name (tlv resp_tag value ++ tail) fn.0 fn.1, calculate_all_loop)
      (rw (next_tlv-tlv resp_tag value tail fv.0 fv.1) (rw e))

apply-touch :
    (qt : Qt) (now : ℕ) (name value : List ℕ)
    → apply_response qt now tag_touch value (named_credential qt name)
      ≡ updated (meaning qt now (touch name value))
unfolding apply_response
apply-touch qt now name value = refl

apply-counter :
    (qt : Qt) (now : ℕ) (name value : List ℕ)
    → apply_response qt now tag_hotp value (named_credential qt name)
      ≡ updated (meaning qt now (counter name value))
unfolding apply_response named_credential
apply-counter qt now name value = ground (arith, (period_positive (qt.from_utf8 name)).1)

apply-code :
    (qt : Qt) (now : ℕ) (name value t : List ℕ)
    → 5 ≤ length value
    → format_code qt value (get_or value 0 0) ≡ text t
    → apply_response qt now tag_totp_response value (named_credential qt name)
      ≡ updated (meaning qt now (code_of name value t))
unfolding apply_response
apply-code qt now name value t long e = ground (
  arith,
  e,
  set_code-with_code now (get_or value 0 0) t (named_credential qt name) (named-period qt name),
)

apply-meaning :
    (qt : Qt) (now : ℕ) (e : Entry)
    → Formats qt e
    → apply_response qt now (answer_of e).0 (answer_of e).1 (named_credential qt (name_of e))
      ≡ updated (meaning qt now e)
apply-meaning qt now (touch name value) h = apply-touch qt now name value
apply-meaning qt now (counter name value) h = apply-counter qt now name value
apply-meaning qt now (code_of name value t) h = apply-code qt now name value t h.0 h.1

append_four : {A : Type 0} (a b x t : List A) → (a ++ (b ++ x)) ++ t ≡ a ++ (b ++ (x ++ t))
append_four a b x t = rw (append_assoc a (b ++ x) t, append_assoc b x t)

-- The loop goes through the entries in front of any other data.
loop-entries :
    (qt : Qt) (now fuel : ℕ) (tail : List ℕ) (es : List Entry) (found : List OathCredential)
    → All (IsSound qt) es
    → calculate_all_loop qt now (length es + fuel) (encode (records es) ++ tail) found
      ≡ calculate_all_loop qt now fuel tail (found ++ map (meaning qt now) es)
loop-entries qt now fuel tail [] found h =
    let z : 0 + fuel ≡ fuel = omega arith in rw (z, append-nil)
loop-entries qt now fuel tail (e ∷ es) found h =
    let s : suc (length es) + fuel ≡ suc (length es + fuel) = omega arith in
    let (fn, fv, formats) = h.0 in
    rw (s, append_four (tlv tag_name (name_of e)) (tlv (answer_of e).0 (answer_of e).1) _ tail)
      (loop_round qt now (length es + fuel) (answer_of e).0 (name_of e) (answer_of e).1 _ found
          (meaning qt now e) fn fv (apply-meaning qt now e formats)
        ∙ loop-entries qt now fuel tail es (found ++ meaning qt now e ∷ []) h.1
        ∙ ap (calculate_all_loop qt now fuel tail)
            (append_assoc found (meaning qt now e ∷ []) (map (meaning qt now) es)))

length-records : (es : List Entry) → length es ≤ length (encode (records es))
unfolding tlv
length-records [] = omega arith
length-records (e ∷ es) = omega (
  arith,
  length-append (name_of e) (tlv (answer_of e).0 (answer_of e).1 ++ encode (records es)),
  length-append (answer_of e).1 (encode (records es)),
  length-records es,
)

loop_end :
    (qt : Qt) (now fuel : ℕ) (found : List OathCredential)
    → calculate_all_loop qt now fuel [] found ≡ credentials found
unfolding calculate_all_loop next_tlv
loop_end qt now zero found = refl
loop_end qt now (suc fuel) found = refl

-- The loop over a whole response, with the entries in front.
loop-response :
    (qt : Qt) (now : ℕ) (es : List Entry) (tail : List ℕ)
    → All (IsSound qt) es
    → (fuel : ℕ) × (length tail ≤ fuel)
      × (yk_parse_calculate_all_response qt now (successful (encode (records es) ++ tail))
          ≡ calculate_all_loop qt now fuel tail (map (meaning qt now) es))
unfolding yk_parse_calculate_all_response
loop-response qt now es tail sound = (
  length d - length es,
  omega (arith, length-append (encode (records es)) tail, length-records es),
  guards_pass (credentials []) (λ d. calculate_all_loop qt now (length d) d []) d
      ∙ ap (λ f. calculate_all_loop qt now f d []) enough
      ∙ loop-entries qt now (length d - length es) tail es [] sound,
)
  where
    d : List ℕ
    d = encode (records es) ++ tail

    enough : length d ≡ length es + (length d - length es)
    enough = omega (arith, length-append (encode (records es)) tail, length-records es)

apply-bad_digits :
    (qt : Qt) (now : ℕ) (value : List ℕ) (cred : OathCredential)
    → 5 ≤ length value
    → 32 ≤ get_or value 0 0
    → apply_response qt now tag_totp_response value cred ≡ update_faulted
unfolding apply_response set_code
apply-bad_digits qt now value cred long many =
    ground (arith, format_code-faults qt value (get_or value 0 0) long many)

bad_round :
    (qt : Qt) (now fuel : ℕ) (name value tail : List ℕ) (found : List OathCredential)
    → Fits (tag_name, name)
    → Fits (tag_totp_response, value)
    → 5 ≤ length value
    → 32 ≤ get_or value 0 0
    → 0 < fuel
    → calculate_all_loop qt now fuel
        (tlv tag_name name ++ (tlv tag_totp_response value ++ tail))
        found
      ≡ faulted
unfolding calculate_all_loop
bad_round qt now zero name value tail found fn fv long many h = absurd (omega arith)
bad_round qt now (suc fuel) name value tail found fn fv long many h =
    rw
      (
        next_tlv-tlv tag_name name (tlv tag_totp_response value ++ tail) fn.0 fn.1,
        calculate_all_loop,
      )
      (rw (next_tlv-tlv tag_totp_response value tail fv.0 fv.1)
        (rw (apply-bad_digits qt now value (named_credential qt name) long many)))

-- A successful CALCULATE ALL response of sound entries gives the credential of each, in order: for a
-- touch record one that requires touch, for an HOTP record one of type HOTP without a period, for a
-- code record one with the code and its validity.
pub yk_parse_calculate_all_response-entries :
    (qt : Qt) (now : ℕ) (es : List Entry)
    → All (IsSound qt) es
    → yk_parse_calculate_all_response qt now (successful (encode (records es)))
      ≡ credentials (map (meaning qt now) es)
yk_parse_calculate_all_response-entries qt now es sound =
    let (fuel, _, e) = loop-response qt now es [] sound in
    rw (append-nil) at (e ∙ loop_end qt now fuel (map (meaning qt now) es))

-- If a successful response holds sound entries and then a name with a code record directly behind it,
-- both of a length that one byte tells, where the record has five bytes or more and announces 32 digits
-- or more, then the parser divides by zero, whatever follows in the response.
pub yk_parse_calculate_all_response-faults :
    (qt : Qt) (now : ℕ) (es : List Entry) (name value tail : List ℕ)
    → All (IsSound qt) es
    → Fits (tag_name, name)
    → Fits (tag_totp_response, value)
    → 5 ≤ length value
    → 32 ≤ get_or value 0 0
    → yk_parse_calculate_all_response qt now (
        successful
          (encode (records es) ++ (tlv tag_name name ++ (tlv tag_totp_response value ++ tail))))
      ≡ faulted
yk_parse_calculate_all_response-faults qt now es name value tail sound fn fv long many =
    let (fuel, enough, e) =
      loop-response qt now es (tlv tag_name name ++ (tlv tag_totp_response value ++ tail)) sound in
    e ∙ bad_round qt now fuel name value tail _ fn fv long many (omega (arith, some_fuel enough))
  where
    some_fuel :
        {fuel : ℕ}
        → length (tlv tag_name name ++ (tlv tag_totp_response value ++ tail)) ≤ fuel
        → 0 < fuel
    some_fuel h = unfold tlv in omega arith
