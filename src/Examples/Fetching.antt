-- ===== src/Examples/Fetching.antt =====
-- Examples of the fetcher of device information.
use yubikey_oath_krunner.Prelude.{ℕ, ◌≡◌, refl, true, List, [], ◌∷◌, some, map}
use yubikey_oath_krunner.Prelude.Text.{codes}
use yubikey_oath_krunner.Status.{payload}
use yubikey_oath_krunner.Status.Laws.{successful}
use yubikey_oath_krunner.Serial.{parse_reader_name_info, contains_neo, find_serial, store_serial}
use yubikey_oath_krunner.Session.{received, State, Session}
use yubikey_oath_krunner.Session.Transport.{
  send_apdu, send_retrying, rate_limit, transmit_apdu, stamp, chain_loop,
}
use yubikey_oath_krunner.Examples.Data.{Script, scripted, opened, start}

abbrev used : Session
used = record opened { last_operation_ms = 5000 }

-- The session after its first operation, with the answers that are left.
abbrev left : List (List ℕ) → State Script
left answers = record {
  session = used;
  world = (start (map {A = List ℕ} received answers) []).world;
}

abbrev refusal : List ℕ
refusal = 0x6a ∷ 0x82 ∷ []

refused :
    (command : List ℕ) (answers : List (List ℕ))
    → send_apdu scripted 1 command (left (refusal ∷ answers)) ≡ some (refusal, left answers)
unfolding send_apdu send_retrying rate_limit transmit_apdu stamp chain_loop payload
refused command answers = refl

accepted_empty :
    (command : List ℕ) (answers : List (List ℕ))
    → send_apdu scripted 1 command (left (successful [] ∷ answers))
      ≡ some (successful [], left answers)
unfolding send_apdu send_retrying rate_limit transmit_apdu stamp chain_loop payload
accepted_empty command answers = refl

abbrev serial_answer : List ℕ
serial_answer = successful (0 ∷ 0x35 ∷ 0x7a ∷ 0x5c ∷ [])

serial_sent :
    (command : List ℕ) (answers : List (List ℕ))
    → send_apdu scripted 1 command (left (serial_answer ∷ answers))
      ≡ some (serial_answer, left answers)
unfolding send_apdu send_retrying rate_limit transmit_apdu stamp chain_loop payload
serial_sent command answers = refl

abbrev reader : List ℕ
reader = codes "YubiKey NEO (0003507404)"

neo_valid : (parse_reader_name_info reader).valid ≡ true
unfolding parse_reader_name_info contains_neo find_serial store_serial
neo_valid = refl

neo_found : (parse_reader_name_info reader).is_neo ≡ true
unfolding parse_reader_name_info contains_neo find_serial store_serial
neo_found = refl

abbrev select_data : List ℕ
select_data = 0x71 ∷ 1 ∷ 9 ∷ []

select_sent :
    (command : List ℕ)
    → send_apdu scripted 1 command (left (successful select_data ∷ []))
      ≡ some (successful select_data, left [])
unfolding send_apdu send_retrying rate_limit transmit_apdu stamp chain_loop payload
select_sent command = refl
