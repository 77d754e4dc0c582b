-- ===== src/Session/Operations.antt =====
-- src/daemon/oath/yk_oath_session.cpp: selecting the application, codes, lists, and adding and
-- deleting credentials. `fuel` bounds the chained responses of one command.
use mathlib.Core.List.{map}
use yubikey_oath_krunner.Prelude.{
  ℕ, ◌/◌, ◌^◌, Bool, false, List, [], ◌∷◌, Option, none, some, ◌==◌, if◌then◌else◌, is_empty,
}
use yubikey_oath_krunner.Prelude.Bytes.{byte}
use yubikey_oath_krunner.Prelude.Text.{Qt}
use yubikey_oath_krunner.Status.{
  get_status_word, sw_success, sw_security_status_not_satisfied, sw_no_such_object,
  sw_conditions_not_satisfied, sw_wrong_data, sw_insufficient_space,
}
use yubikey_oath_krunner.Version.{no_version}
use yubikey_oath_krunner.Credential.{OathCredentialData, OathCredential, valid, invalid, validate}
use yubikey_oath_krunner.Command.{
  create_select_command, create_list_command, create_calculate_command,
  create_calculate_all_command, create_put_command, create_delete_command,
}
use yubikey_oath_krunner.Code.{Formatted, text, division_by_zero, yk_parse_code}
use yubikey_oath_krunner.Select.{SelectOut}
use yubikey_oath_krunner.Listing.{
  credentials, faulted, parse_credential_list, yk_parse_calculate_all_response,
}
use yubikey_oath_krunner.Session.{
  Env, touch_required, Session, M, pure, ◌>>=◌, ◌>>◌, emit, no_response, select_failed,
  select_unparsed, touch_needed, password_required, code_unparsed, encoding_failed,
  insufficient_space, authentication_required, wrong_data, not_found, empty_name, division_fault,
  status_error, invalid_data, Result, success, error,
}
use yubikey_oath_krunner.Session.Transport.{send_apdu}

-- A counter as eight bytes.
unfoldable pub counter_bytes : ℕ → List ℕ
counter_bytes counter =
    byte (counter / 2 ^ 56)
    ∷ byte (counter / 2 ^ 48)
    ∷ byte (counter / 2 ^ 40)
    ∷ byte (counter / 2 ^ 32)
    ∷ byte (counter / 2 ^ 24)
    ∷ byte (counter / 2 ^ 16)
    ∷ byte (counter / 2 ^ 8)
    ∷ byte counter
    ∷ []

-- `calculateTotpCounter`: the counter of the period that the time lies in; none where the division by
-- a period of 0 ends the process. Periods are not negative: they are read from digits, or 0 or 30.
unfoldable pub totp_counter : ℕ → ℕ → Option (List ℕ)
unfolding counter_bytes
totp_counter seconds period = if period == 0 then none else some (counter_bytes (seconds / period))

-- The credentials with the session's device id.
abbrev pub on_device : List ℕ → List OathCredential → List OathCredential
on_device id = map {A = OathCredential} λ cred. record cred { device_id = id }

-- The answer to CALCULATE by its status word.
abbrev pub parsed_code : Formatted → Result (List ℕ)
parsed_code division_by_zero = error division_fault
parsed_code (text code) = if is_empty code then error code_unparsed else success code

-- The error that a status word of PUT or DELETE stands for.
unfoldable pub put_result : ℕ → Result (Unit {0})
put_result sw =
    if sw == sw_success
    then success tt
    else if sw == sw_insufficient_space
    then error insufficient_space
    else if sw == sw_security_status_not_satisfied
    then error authentication_required
    else if sw == sw_wrong_data
    then error wrong_data
    else error (status_error sw)

unfoldable pub delete_result : ℕ → Result (Unit {0})
delete_result sw =
    if sw == sw_success
    then success tt
    else if sw == sw_no_such_object
    then error not_found
    else if sw == sw_security_status_not_satisfied
    then error authentication_required
    else if sw == sw_wrong_data
    then error wrong_data
    else error (status_error sw)

module _ (env : Env) (qt : Qt) (fuel : ℕ) where
  open env use {W, now_secs}

  unfoldable pub read_clock : M W ℕ
  read_clock s = let (now, w) = now_secs s.world in some (now, record s { world = w })

  unfoldable pub get_session : M W Session
  get_session s = some (s.session, s)

  -- The fields that a SELECT response sets. An empty device id leaves the old one.
  unfoldable pub store_select : SelectOut → M W (Unit {0})
  store_select out s = some (
    tt,
    record s {
      session = record (s.session) {
        device_id = if is_empty out.device_id then s.session.device_id else out.device_id;
        firmware_version = out.firmware;
        select_serial_number = out.serial_number;
        requires_password = out.requires_password;
      };
    },
  )

  -- The parser is the brand's. The challenge is what the caller's variable holds afterwards.
  unfoldable pub select_oath_application :
      (List ℕ → SelectOut → SelectOut × Bool) → M W (Result (List ℕ))
  select_oath_application parse = do
    response ← send_apdu env fuel create_select_command
    let (out, parsed) = parse response (record {
      device_id = [];
      challenge = [];
      firmware = no_version;
      requires_password = false;
      serial_number = 0;
    })
    if is_empty response
        then pure (error select_failed)
        else if parsed
        then (store_select out >> pure (success out.challenge))
        else pure (error select_unparsed)

  unfoldable pub totp_challenge : ℕ → ℕ → M W (List ℕ)
  unfolding totp_counter
  totp_challenge now period s = elim (totp_counter now period) [
    | none ↦ none
    | some challenge ↦ some (challenge, s)
  ]

  unfoldable pub calculate_code : List ℕ → ℕ → M W (Result (List ℕ))
  calculate_code name period = do
    now ← read_clock
    challenge ← totp_challenge now period
    response ← send_apdu env fuel (create_calculate_command qt name challenge)
    let sw = get_status_word response
    if is_empty response
        then pure (error no_response)
        else if sw == sw_conditions_not_satisfied
        then (emit touch_required >> pure (error touch_needed))
        else if sw == sw_security_status_not_satisfied
        then pure (error password_required)
        else pure (parsed_code (yk_parse_code qt response))

  -- The challenge has the default period of 30 seconds. The parser reads the clock for each code; here
  -- it does so once.
  unfoldable pub calculate_all : M W (Result (List OathCredential))
  calculate_all = do
    now ← read_clock
    challenge ← totp_challenge now 30
    response ← send_apdu env fuel (create_calculate_all_command challenge)
    session ← get_session
    if is_empty response
        then pure (error no_response)
        else if get_status_word response == sw_security_status_not_satisfied
        then pure (error password_required)
        else (read_clock >>= λ later. elim (yk_parse_calculate_all_response qt later response) [
          | faulted ↦ pure (error division_fault)
          | credentials found ↦ pure (success (on_device session.device_id found))
        ])

  unfoldable pub list_credentials : M W (Result (List OathCredential))
  list_credentials = do
    response ← send_apdu env fuel create_list_command
    session ← get_session
    if is_empty response
        then pure (error no_response)
        else if get_status_word response == sw_security_status_not_satisfied
        then pure (error password_required)
        else pure (success (on_device session.device_id (parse_credential_list qt response)))

  unfoldable pub put_credential : OathCredentialData → M W (Result (Unit {0}))
  put_credential d s =
      let command = create_put_command qt d in
      elim (validate qt d) [
        | invalid why ↦ pure (error (invalid_data why)) s
        | valid ↦
            if is_empty command
            then pure (error encoding_failed) s
            else (do
              response ← send_apdu env fuel command
              if is_empty response
                  then pure (error no_response)
                  else pure (put_result (get_status_word response)))
                s
      ]

  unfoldable pub delete_credential : List ℕ → M W (Result (Unit {0}))
  delete_credential name s =
      let command = create_delete_command qt name in
      if is_empty name
      then pure (error empty_name) s
      else if is_empty command
      then pure (error encoding_failed) s
      else (do
        response ← send_apdu env fuel command
        if is_empty response
            then pure (error no_response)
            else pure (delete_result (get_status_word response)))
          s

  -- SELECT resets the card's state; the response is ignored.
  unfoldable pub cancel_operation : M W (Unit {0})
  cancel_operation = do response ← send_apdu env fuel create_select_command; pure tt
