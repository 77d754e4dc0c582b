-- ===== src/Session/Fetcher.antt =====
-- src/daemon/oath/extended_device_info_fetcher.cpp over a session, as getExtendedDeviceInfo of
-- yk_oath_session.cpp builds it.
use yubikey_oath_krunner.Prelude.{
  ℕ, Bool, true, false, List, [], not, ◌==◌, ◌&&◌, if◌then◌else◌, is_empty,
}
use yubikey_oath_krunner.Status.{get_status_word, is_success, payload}
use yubikey_oath_krunner.Version.{Version, no_version}
use yubikey_oath_krunner.Command.{
  create_select_command, create_select_otp_command, create_otp_get_serial_command,
  create_select_piv_command, create_get_serial_command,
}
use yubikey_oath_krunner.Select.{SelectOut}
use yubikey_oath_krunner.Management.{
  ManagementDeviceInfo, create_select_management_command, create_get_device_info_command,
  parse_device_info_response,
}
use yubikey_oath_krunner.Serial.{
  ReaderNameInfo, parse_otp_serial_response, parse_serial_response, parse_reader_name_info,
}
use yubikey_oath_krunner.Model.{detect_yubikey_model}
use yubikey_oath_krunner.Session.{
  Env, M, pure, ◌>>=◌, reselect_failed, device_info_failed, Result, success, error,
}
use yubikey_oath_krunner.Session.Transport.{send_apdu}

pub record ExtendedDeviceInfo : Type 0 where
  pub firmware_version : Version
  pub model : ℕ
  pub device_model : ℕ
  pub serial_number : ℕ
  pub form_factor : ℕ

abbrev pub no_device_info : ExtendedDeviceInfo
no_device_info = record {
  firmware_version = no_version;
  model = 0;
  device_model = 0;
  serial_number = 0;
  form_factor = 0;
}

abbrev pub no_management_info : ManagementDeviceInfo
no_management_info = record {
  serial_number = 0;
  firmware_version = no_version;
  form_factor = 0;
  usb_supported = 0;
  usb_enabled = 0;
  nfc_supported = 0;
  nfc_enabled = 0;
  config_locked = false;
  fips = false;
  sky = false;
  device_flags = 0;
  auto_eject_timeout = 0;
  challenge_response_timeout = 0;
}

abbrev pub no_select : SelectOut
no_select = record {
  device_id = [];
  challenge = [];
  firmware = no_version;
  requires_password = false;
  serial_number = 0;
}

-- `!response.isEmpty() && isSuccess(getStatusWord(response))`.
abbrev pub accepted : List ℕ → Bool
accepted response = not (is_empty response) && is_success (get_status_word response)

-- A number of zero does not replace the one that is known.
abbrev pub with_serial : ℕ → ExtendedDeviceInfo → ExtendedDeviceInfo
with_serial serial info = if serial == 0 then info else record info { serial_number = serial }

abbrev pub from_management : ManagementDeviceInfo → ExtendedDeviceInfo → ExtendedDeviceInfo
from_management m info = record (with_serial m.serial_number info) {
  firmware_version = m.firmware_version;
  form_factor = m.form_factor;
  device_model = detect_yubikey_model m.firmware_version m.form_factor m.nfc_supported;
}

-- Form factor and model where only the firmware is known.
abbrev pub by_firmware : ExtendedDeviceInfo → ExtendedDeviceInfo
by_firmware info = record info {
  form_factor = 0;
  device_model = detect_yubikey_model info.firmware_version 0 0;
}

abbrev pub neo_firmware : Version
neo_firmware = record { major = 3; minor = 4; patch = 0 }

abbrev pub as_neo : ReaderNameInfo → ExtendedDeviceInfo → ExtendedDeviceInfo
as_neo reader info = record info {
  form_factor = reader.form_factor;
  firmware_version = neo_firmware;
  device_model = detect_yubikey_model neo_firmware reader.form_factor 0;
}

module _ (env : Env) (fuel : ℕ) (parse : List ℕ → SelectOut → SelectOut × Bool) where
  open env use {W}

  -- What a strategy returns: the information as it left it, and whether it succeeded.
  abbrev Attempt : Type 0
  Attempt = ExtendedDeviceInfo × Bool

  unfoldable pub reselect_oath : M W Bool
  reselect_oath = do response ← send_apdu env fuel create_select_command; pure (accepted response)

  unfoldable pub update_firmware_from_oath_select : ExtendedDeviceInfo → M W Attempt
  update_firmware_from_oath_select info = do
    response ← send_apdu env fuel create_select_command
    let (out, parsed) = parse response no_select
    if not (accepted response)
        then pure (info, false)
        else if not parsed
        then pure (info, false)
        else pure (record info { firmware_version = out.firmware }, true)

  unfoldable pub try_management_api : ExtendedDeviceInfo → M W Attempt
  try_management_api info = do
    selected ← send_apdu env fuel create_select_management_command
    if not (accepted selected) then pure (info, false) else (do
      answer ← send_apdu env fuel create_get_device_info_command
      let (m, parsed) = parse_device_info_response answer no_management_info
      if is_empty answer
          then pure (info, false)
          else if not parsed
          then pure (info, false)
          else (do back ← reselect_oath; pure (from_management m info, back)))

  -- The rest of the OTP and PIV strategies: OATH again, and its firmware.
  unfoldable pub finish_with_firmware : ExtendedDeviceInfo → M W Attempt
  finish_with_firmware info = do
    back ← reselect_oath
    if not back then pure (info, false) else (do
      updated ← update_firmware_from_oath_select info
      let (info', ok) = updated
      pure (if ok then (by_firmware info', true) else (info', false)))

  -- A failure after the application was selected: OATH is selected again, whether or not that works.
  unfoldable pub give_up : ExtendedDeviceInfo → M W Attempt
  give_up info = do back ← reselect_oath; pure (info, false)

  unfoldable pub try_otp_api : List ℕ → ExtendedDeviceInfo → M W Attempt
  try_otp_api reader_name info = do
    selected ← send_apdu env fuel create_select_otp_command
    if not (accepted selected) then pure (info, false) else (do
      answer ← send_apdu env fuel create_otp_get_serial_command
      let (serial, parsed) = parse_otp_serial_response answer 0
      let reader = parse_reader_name_info reader_name
      if is_empty answer
          then give_up info
          else if not parsed
          then give_up info
          else if reader.valid && reader.is_neo
          then pure (as_neo reader (with_serial serial info), true)
          else finish_with_firmware (with_serial serial info))

  unfoldable pub try_piv_api : ExtendedDeviceInfo → M W Attempt
  try_piv_api info = do
    selected ← send_apdu env fuel create_select_piv_command
    if not (accepted selected) then pure (info, false) else (do
      answer ← send_apdu env fuel create_get_serial_command
      let (serial, parsed) = parse_serial_response answer 0
      if is_empty answer
          then give_up info
          else if not parsed
          then give_up info
          else finish_with_firmware (with_serial serial info))

  -- The parser is given the response without its status word.
  unfoldable pub try_oath_select_only : ExtendedDeviceInfo → M W Attempt
  try_oath_select_only info = do
    response ← send_apdu env fuel create_select_command
    let (out, parsed) = parse (payload response) no_select
    if not (accepted response)
        then pure (info, false)
        else if not parsed
        then pure (info, false)
        else pure
            (by_firmware (record info { serial_number = 0; firmware_version = out.firmware }), true)

  -- The strategies in their order, each continuing with what the one before it left.
  unfoldable pub fallbacks : List ℕ → ExtendedDeviceInfo → M W (Result ExtendedDeviceInfo)
  fallbacks reader_name info = do
    otp ← try_otp_api reader_name info
    let (info1, otp_done) = otp
    if otp_done then pure (success info1) else (do
      piv ← try_piv_api info1
      let (info2, piv_done) = piv
      if piv_done then pure (success info2) else (do
        only ← try_oath_select_only info2
        let (info3, only_done) = only
        pure (if only_done then success info3 else error device_info_failed)))

  -- `fetch` of a fetcher with the session's serial number and firmware at the start.
  unfoldable pub get_extended_device_info : List ℕ → M W (Result ExtendedDeviceInfo)
  get_extended_device_info reader_name s =
      let serial = s.session.select_serial_number in
      let firmware = s.session.firmware_version in
      (do
        management ← try_management_api (with_serial serial no_device_info)
        let (info, done) = management
        if done
            then pure (success info)
            else if serial == 0
            then fallbacks reader_name info
            else (do
              back ← reselect_oath
              pure (
                  if back
                  then success (by_firmware (record info { firmware_version = firmware }))
                  else error reselect_failed)))
        s
