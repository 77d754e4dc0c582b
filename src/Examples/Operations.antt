-- ===== src/Examples/Operations.antt =====
-- Examples of the operations on credentials.
use yubikey_oath_krunner.Prelude.{
  false, ◌/◌, ℕ, ◌≡◌, refl, false, List, [], ◌∷◌, some, arith, ◌%◌, ◌^◌,
}
use yubikey_oath_krunner.Prelude.Bytes.{be32}
use yubikey_oath_krunner.Prelude.Digits.{decimal-IsDecimal}
use yubikey_oath_krunner.Prelude.Text.{codes}
use yubikey_oath_krunner.Prelude.Int.{pos}
use yubikey_oath_krunner.Base32.{decode_base32, remove_padding}
use yubikey_oath_krunner.Tlv.{tlv}
use yubikey_oath_krunner.Status.{get_status_word, payload}
use yubikey_oath_krunner.Credential.{OathCredentialData, totp, sha1, validate, contains, all_base32}
use yubikey_oath_krunner.Command.{
  create_put_command, create_delete_command, create_calculate_command,
}
use yubikey_oath_krunner.Code.{text}
use yubikey_oath_krunner.Code.Format.{Shows}
use yubikey_oath_krunner.Code.Parse.{code_response}
use yubikey_oath_krunner.Session.{
  received, State, Session, touch_required, Result, success, error, touch_needed,
}
use yubikey_oath_krunner.Session.Transport.{
  send_apdu, send_retrying, rate_limit, transmit_apdu, stamp, chain_loop,
}
use yubikey_oath_krunner.Session.Operations.{
  totp_challenge, totp_counter, counter_bytes, put_credential, delete_credential, read_clock,
  calculate_code, put_result, delete_result,
}
use yubikey_oath_krunner.Session.Nitrokey
use yubikey_oath_krunner.Session.Outcomes.{calculate_code-Shows}
use yubikey_oath_krunner.Examples.Data.{Script, scripted, opened, start, ascii}

abbrev sample : OathCredentialData
sample = record {
  name = codes "foo:bar";
  issuer = codes "foo";
  account = codes "bar";
  secret = codes "MZXW6";
  type = totp;
  algorithm = sha1;
  digits = pos 6;
  period = pos 30;
  counter = 0;
  require_touch = false;
}

abbrev used : Session
used = record opened { last_operation_ms = 5000 }

abbrev done : State Script
done = record { session = used; world = (start [] []).world }

abbrev answering : List ℕ → State Script
answering response = start (received response ∷ []) []

put_accepted :
    put_credential scripted ascii 1 sample (answering (0x90 ∷ 0x00 ∷ [])) ≡ some (success tt, done)
unfolding put_credential send_apdu send_retrying rate_limit transmit_apdu stamp chain_loop
    get_status_word payload put_result validate contains all_base32 create_put_command decode_base32
    remove_padding
put_accepted = refl

delete_accepted :
    delete_credential scripted ascii 1 (codes "foo:bar") (answering (0x90 ∷ 0x00 ∷ []))
    ≡ some (success tt, done)
unfolding delete_credential send_apdu send_retrying rate_limit transmit_apdu stamp chain_loop
    get_status_word payload delete_result create_delete_command
delete_accepted = refl

abbrev refused : Result (List ℕ)
refused = error touch_needed

touch_missing :
    Nitrokey.calculate_code scripted ascii 1 (codes "a:b") 30 (answering (0x69 ∷ 0x82 ∷ []))
    ≡ some
        (error touch_needed, record done { session = record used { events = touch_required ∷ [] } })
unfolding Nitrokey.calculate_code send_apdu send_retrying rate_limit transmit_apdu stamp chain_loop
    get_status_word payload read_clock totp_challenge totp_counter counter_bytes
touch_missing = refl

code_sent :
    send_apdu scripted 1
      (create_calculate_command ascii (codes "a:b") (counter_bytes (59 / 30)))
      (answering (code_response 6 0 0 0 9))
    ≡ some (code_response 6 0 0 0 9, done)
unfolding send_apdu send_retrying rate_limit transmit_apdu stamp chain_loop payload tlv
code_sent = refl

calculate_code-Shows_example :
    (code : List ℕ) × (calculate_code scripted ascii 1
        (codes "a:b")
        30
        (answering (code_response 6 0 0 0 9))
      ≡ some (success code, done))
    × Shows 6 (be32 0 0 0 9 % 10 ^ 6) (text code)
calculate_code-Shows_example =
    calculate_code-Shows scripted ascii 1 (codes "a:b") 30 6 0 0 0 9
      (answering (code_response 6 0 0 0 9)) done decimal-IsDecimal (omega arith) (omega arith)
      (omega arith) (omega arith) (omega arith) (omega arith) (omega arith) code_sent
