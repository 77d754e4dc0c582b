-- ===== src/Session/Password.antt =====
-- src/daemon/oath/yk_oath_session.cpp: authentication and the password of the card.
use yubikey_oath_krunner.Prelude.{
  ℕ, Bool, false, List, [], some, not, ltb, ◌==◌, ◌&&◌, list_eq, if◌then◌else◌, is_empty, length,
}
use yubikey_oath_krunner.Prelude.Text.{Qt}
use yubikey_oath_krunner.Tlv.{find_tlv_tag}
use yubikey_oath_krunner.Status.{
  get_status_word, payload, sw_success, sw_security_status_not_satisfied, sw_no_such_object,
}
use yubikey_oath_krunner.Command.{
  tag_response, create_validate_command, create_set_code_command, create_remove_code_command,
}
use yubikey_oath_krunner.Select.{SelectOut}
use yubikey_oath_krunner.Session.{
  Env, M, pure, ◌>>=◌, no_response, no_challenge, wrong_password, authentication_failed,
  authentication_required, empty_password, empty_device_id, key_derivation_failed,
  verification_failed, wrong_old_password, select_error, wrong_current_password, status_error,
  Result, success, error,
}
use yubikey_oath_krunner.Session.Transport.{send_apdu}
use yubikey_oath_krunner.Session.Operations.{select_oath_application}

-- `parseSetCodeResponse`: success by the status word, and the response to the challenge.
unfoldable pub parse_set_code_response : List ℕ → List ℕ → List ℕ × Bool
parse_set_code_response response out =
    if ltb (length response) 2
    then (out, false)
    else (find_tlv_tag (payload response) tag_response, get_status_word response == sw_success)

-- The status word of VALIDATE.
unfoldable pub validate_status : ℕ → Result (Unit {0})
validate_status sw =
    if sw == sw_success
    then success tt
    else if sw == sw_security_status_not_satisfied
    then error wrong_password
    else error authentication_failed

-- What is found of the card's own response to our challenge.
pub data Proof : Type 0 where
  unchecked verified mismatched : Proof

unfoldable pub card_proof : List ℕ → List ℕ → Proof
card_proof expected response =
    let found = find_tlv_tag (payload response) tag_response in
    if is_empty found then unchecked else if list_eq found expected then verified else mismatched

-- The answer to VALIDATE: the result, and what is logged of the card's response, which is only looked
-- at after 0x9000 and does not change the result.
unfoldable pub validate_result : List ℕ → List ℕ → Result (Unit {0}) × Proof
unfolding validate_status card_proof
validate_result expected response =
    let sw = get_status_word response in
    (validate_status sw, if sw == sw_success then card_proof expected response else unchecked)

-- The answer to SET CODE, with the response that was expected to our challenge.
unfoldable pub set_code_result : List ℕ → List ℕ → Result (Unit {0})
set_code_result response expected =
    let (verification, accepted) = parse_set_code_response response [] in
    let sw = get_status_word response in
    if is_empty response
    then error no_response
    else if not accepted
    then (if sw == sw_no_such_object
        then error wrong_old_password
        else if sw == sw_security_status_not_satisfied
        then error authentication_required
        else error (status_error sw))
    else if not (is_empty verification) && not (list_eq verification expected)
    then error verification_failed
    else success tt

unfoldable pub remove_result : ℕ → Result (Unit {0})
remove_result sw =
    if sw == sw_success
    then success tt
    else if sw == sw_security_status_not_satisfied
    then error authentication_required
    else error (status_error sw)

module _ (env : Env) (qt : Qt) (fuel : ℕ) (parse : List ℕ → SelectOut → SelectOut × Bool) where
  open env use {W, random_bytes, pbkdf2, hmac_sha1, from_hex}

  unfoldable pub random_challenge : M W (List ℕ)
  random_challenge s =
      let (bytes, w) = random_bytes 8 s.world in some (bytes, record s { world = w })

  unfoldable pub send_validate : List ℕ → List ℕ → M W (Result (Unit {0}))
  unfolding validate_result
  send_validate key challenge = do
    ours ← random_challenge
    response ← send_apdu env fuel (create_validate_command (hmac_sha1 challenge key) ours)
    if is_empty response
        then pure (error no_response)
        else pure (validate_result (hmac_sha1 ours key) response).0

  unfoldable pub authenticate : List ℕ → List ℕ → M W (Result (Unit {0}))
  authenticate password device_id = do
    selected ← select_oath_application env qt fuel parse
    elim selected [
      | error e ↦ pure (error e)
      | success challenge ↦
          if is_empty challenge
          then pure (error no_challenge)
          else send_validate (pbkdf2 (qt.to_utf8 password) (from_hex device_id)) challenge
    ]

  unfoldable pub send_set_code : List ℕ → M W (Result (Unit {0}))
  send_set_code key = do
    challenge ← random_challenge
    let expected = hmac_sha1 challenge key
    response ← send_apdu env fuel (create_set_code_command key challenge expected)
    pure (set_code_result response expected)

  unfoldable pub set_password : List ℕ → List ℕ → M W (Result (Unit {0}))
  set_password new_password device_id =
      let key = pbkdf2 (qt.to_utf8 new_password) (from_hex (qt.to_utf8 device_id)) in
      if is_empty new_password
      then pure (error empty_password)
      else if is_empty device_id
      then pure (error empty_device_id)
      else (do
        selected ← select_oath_application env qt fuel parse
        elim selected [
          | error e ↦ pure (error (select_error e))
          | success _ ↦
              if not (length key == 16)
              then pure (error key_derivation_failed)
              else send_set_code key
        ])

  unfoldable pub remove_password : M W (Result (Unit {0}))
  unfolding remove_result
  remove_password = do
    response ← send_apdu env fuel create_remove_code_command
    if is_empty response
        then pure (error no_response)
        else pure (remove_result (get_status_word response))

  abbrev finish_change : List ℕ → List ℕ → M W (Result (Unit {0}))
  finish_change new_password device_id =
      if is_empty new_password then remove_password else set_password new_password device_id

  unfoldable pub change_password : List ℕ → List ℕ → List ℕ → M W (Result (Unit {0}))
  change_password old_password new_password device_id =
      if is_empty old_password then finish_change new_password device_id else (do
        authenticated ← authenticate old_password device_id
        elim authenticated [
          | error e ↦ pure (error (wrong_current_password e))
          | success _ ↦ finish_change new_password device_id
        ])
