-- ===== src/Session/Nitrokey.antt =====
-- src/daemon/oath/nitrokey_oath_session.cpp.
use mathlib.Core.List.{map}
use yubikey_oath_krunner.Prelude.{ℕ, false, List, not, ◌==◌, ◌||◌, if◌then◌else◌, is_empty}
use yubikey_oath_krunner.Prelude.Text.{Qt}
use yubikey_oath_krunner.Status.{
  get_status_word, sw_success, sw_security_status_not_satisfied, sw_conditions_not_satisfied,
  sw_ins_not_supported, sw_cla_not_supported,
}
use yubikey_oath_krunner.Credential.{OathCredential}
use yubikey_oath_krunner.Command.Nitrokey
use yubikey_oath_krunner.Code.{nitrokey_parse_code}
use yubikey_oath_krunner.Listing.{parse_credential_list, parse_credential_list_v1}
use yubikey_oath_krunner.Session.{
  password_or_touch_required, Env, touch_required, M, pure, ◌>>=◌, ◌>>◌, emit, no_response,
  touch_needed, password_required, session_lost, list_failed, status_error, Result, success, error,
}
use yubikey_oath_krunner.Session.Transport.{send_apdu}
use yubikey_oath_krunner.Session.Operations.{
  totp_challenge, on_device, parsed_code, read_clock, get_session,
}

-- Without the flags of LIST v1 no credential is known to require touch.
abbrev pub without_touch : List OathCredential → List OathCredential
without_touch = map {A = OathCredential} λ cred. record cred { requires_touch = false }

module _ (env : Env) (qt : Qt) (fuel : ℕ) where
  open env use {W}

  -- The status word 0x6982 is tested for touch, and then once more for a password or touch.
  unfoldable pub calculate_code : List ℕ → ℕ → M W (Result (List ℕ))
  calculate_code name period = do
    now ← read_clock env qt fuel
    challenge ← totp_challenge env qt fuel now period
    response ← send_apdu env fuel (Nitrokey.create_calculate_command qt name challenge)
    let sw = get_status_word response
    if is_empty response
        then pure (error no_response)
        else if sw == sw_security_status_not_satisfied
        then (emit touch_required >> pure (error touch_needed))
        else if sw == sw_security_status_not_satisfied
        then pure (error password_or_touch_required)
        else pure (parsed_code (nitrokey_parse_code qt response))

  -- The standard LIST, where the card does not know LIST v1.
  unfoldable pub list_standard : M W (Result (List OathCredential))
  list_standard = do
    response ← send_apdu env fuel Nitrokey.create_list_command
    session ← get_session env qt fuel
    let sw = get_status_word response
    if is_empty response
        then pure (error list_failed)
        else if not (sw == sw_success)
        then pure (error (status_error sw))
        else pure (
            success
              (without_touch (on_device session.device_id (parse_credential_list qt response))))

  unfoldable pub calculate_all : M W (Result (List OathCredential))
  calculate_all = do
    response ← send_apdu env fuel Nitrokey.create_list_command_v1
    session ← get_session env qt fuel
    let sw = get_status_word response
    if is_empty response
        then pure (error list_failed)
        else if sw == sw_ins_not_supported || sw == sw_cla_not_supported
        then pure (error session_lost)
        else if sw == sw_security_status_not_satisfied
        then pure (error password_required)
        else if sw == sw_conditions_not_satisfied
        then list_standard
        else if not (sw == sw_success)
        then pure (error (status_error sw))
        else pure (success (on_device session.device_id (parse_credential_list_v1 qt response)))
