-- ===== src/Examples/Passwords.antt =====
-- Examples of the operations on the card's password.
use yubikey_oath_krunner.Prelude.{map, Bool, ℕ, ◌≡◌, ◌≢◌, ◌⊎◌, refl, true, List, [], ◌∷◌, some}
use yubikey_oath_krunner.Prelude.Text.{codes}
use yubikey_oath_krunner.Tlv.{find_tlv_tag, for_each_tlv, next_tlv}
use yubikey_oath_krunner.Status.{get_status_word, payload, is_success}
use yubikey_oath_krunner.Select.{
  SelectOut, parse_select_response, select_body, device_id_of, finish_select,
}
use yubikey_oath_krunner.Session.{received, State, success, error, wrong_password}
use yubikey_oath_krunner.Session.Transport.{
  send_apdu, send_retrying, rate_limit, transmit_apdu, stamp, chain_loop,
}
use yubikey_oath_krunner.Session.Operations.{select_oath_application, store_select}
use yubikey_oath_krunner.Session.Password.{
  authenticate, send_validate, validate_result, validate_status, random_challenge, set_password,
  send_set_code, set_code_result, parse_set_code_response, change_password,
}
use yubikey_oath_krunner.Session.Authentication.{Authenticated, authenticate-success}
use yubikey_oath_krunner.Session.PasswordChange.{Changed, change_password-success}
use yubikey_oath_krunner.Examples.Data.{hex_bytes, Script, scripted, opened, start, ascii}

abbrev parser : List ℕ → SelectOut → SelectOut × Bool
parser = parse_select_response ascii

abbrev select_answer : List ℕ
select_answer = 0x71 ∷ 1 ∷ 9 ∷ 0x74 ∷ 1 ∷ 5 ∷ 0x90 ∷ 0x00 ∷ []

abbrev accepted : List ℕ
accepted = 0x90 ∷ 0x00 ∷ []

abbrev refused : List ℕ
refused = 0x69 ∷ 0x82 ∷ []

abbrev locked : List (List ℕ) → State Script
locked answers = start (map {A = List ℕ} received answers) []

-- The session after SELECT was answered, and whatever followed it.
abbrev selected : State Script
selected = record {
  session = record opened {
    device_id = codes "09";
    requires_password = true;
    last_operation_ms = 5000;
  };
  world = (start [] []).world;
}

right_password :
    authenticate scripted ascii 1 parser
      (codes "pw")
      (codes "42")
      (locked (select_answer ∷ accepted ∷ []))
    ≡ some (success tt, selected)
unfolding authenticate send_validate validate_result validate_status random_challenge
    select_oath_application store_select hex_bytes parse_select_response select_body device_id_of
    finish_select for_each_tlv next_tlv send_apdu send_retrying rate_limit transmit_apdu stamp
    chain_loop get_status_word payload is_success
right_password = refl

wrong_password_sent :
    authenticate scripted ascii 1 parser
      (codes "pw")
      (codes "42")
      (locked (select_answer ∷ refused ∷ []))
    ≡ some (error wrong_password, selected)
unfolding authenticate send_validate validate_result validate_status random_challenge
    select_oath_application store_select hex_bytes parse_select_response select_body device_id_of
    finish_select for_each_tlv next_tlv send_apdu send_retrying rate_limit transmit_apdu stamp
    chain_loop get_status_word payload is_success
wrong_password_sent = refl

authenticate-success_example :
    Authenticated scripted ascii 1 parser
      (codes "pw")
      (codes "42")
      (locked (select_answer ∷ accepted ∷ []))
      selected
authenticate-success_example =
    authenticate-success scripted ascii 1 parser (codes "pw") (codes "42")
      (locked (select_answer ∷ accepted ∷ [])) selected right_password

password_accepted :
    set_password scripted ascii 1 parser
      (codes "new")
      (codes "42")
      (locked (select_answer ∷ accepted ∷ []))
    ≡ some (success tt, selected)
unfolding set_password send_set_code set_code_result parse_set_code_response random_challenge
    select_oath_application store_select hex_bytes parse_select_response select_body device_id_of
    finish_select for_each_tlv next_tlv find_tlv_tag send_apdu send_retrying rate_limit
    transmit_apdu stamp chain_loop get_status_word payload is_success
password_accepted = refl

abbrev all_answers : State Script
all_answers = locked (select_answer ∷ accepted ∷ select_answer ∷ accepted ∷ [])

change_accepted :
    change_password scripted ascii 1 parser (codes "pw") (codes "new") (codes "42") all_answers
    ≡ some (success tt, selected)
unfolding change_password set_password send_set_code set_code_result parse_set_code_response
    random_challenge authenticate send_validate validate_result select_oath_application store_select
    hex_bytes parse_select_response select_body device_id_of finish_select for_each_tlv next_tlv
    find_tlv_tag send_apdu send_retrying rate_limit transmit_apdu stamp chain_loop get_status_word
    payload is_success
change_accepted = refl

change_password-success_example :
    ((codes "pw" ≡ [])
      × Changed scripted ascii 1 parser (codes "new") (codes "42") all_answers selected)
    ⊎ ((codes "pw" ≢ [])
        × (u : State Script) × Authenticated scripted ascii 1 parser
            (codes "pw")
            (codes "42")
            all_answers
            u
        × Changed scripted ascii 1 parser (codes "new") (codes "42") u selected)
change_password-success_example =
    change_password-success scripted ascii 1 parser (codes "pw") (codes "new") (codes "42")
      all_answers selected change_accepted
