-- ===== src/Device/Create.antt =====
-- The constructors of src/daemon/oath/yubikey_oath_device.cpp and nitrokey_oath_device.cpp.
use yubikey_oath_krunner.Prelude.{ℕ, Bool, false, List, [], if◌then◌else◌, is_empty}
use yubikey_oath_krunner.Prelude.Text.{Qt}
use yubikey_oath_krunner.Version.{Version, no_version, is_valid}
use yubikey_oath_krunner.Command.{create_select_command}
use yubikey_oath_krunner.Model.{detect_yubikey_model}
use yubikey_oath_krunner.Model.Texts.{to_device_model}
use yubikey_oath_krunner.NitrokeyModel.{
  TextSearch, DeviceModel, DeviceBrand, unknown_brand, yubikey, nitrokey, detect_nitrokey_model,
}
use yubikey_oath_krunner.Session.{Env, M, select_failed, select_unparsed, Result, success, error}
use yubikey_oath_krunner.Session
use yubikey_oath_krunner.Session.Transport.{send_apdu, set_rate_limit_ms}
use yubikey_oath_krunner.Session.Operations.{store_select}
use yubikey_oath_krunner.Session.Fetcher.{ExtendedDeviceInfo, no_select, get_extended_device_info}
use yubikey_oath_krunner.Device.{
  SessionClass, disconnected, Device, D, ◌>>=◌, ◌>>◌, get_device, modify, in_session,
}
use yubikey_oath_krunner.Device.Reconnect.{new_session}

-- DeviceModel with its initialisers.
abbrev pub no_model : DeviceModel
no_model = record {
  brand = unknown_brand;
  model_code = 0;
  model_string = [];
  form_factor = 0;
  capabilities = [];
}

-- The members that both constructors set first, and the initialisers of the others.
unfoldable pub new_device : List ℕ → List ℕ → ℕ → ℕ → List ℕ → Bool → Device
new_device device_id reader_name card_handle protocol challenge requires_password = record {
  device_id = device_id;
  reader_name = reader_name;
  card_handle = card_handle;
  protocol = protocol;
  challenge = challenge;
  requires_password = requires_password;
  firmware_version = no_version;
  device_model = no_model;
  serial_number = 0;
  form_factor = 0;
  state = disconnected;
  last_error = [];
  password = [];
  credentials = [];
  update_in_progress = false;
  updates = [];
  session = new_session card_handle protocol device_id;
  signals = [];
}

abbrev pub known_firmware : Version → Version → Version
known_firmware found old = if is_valid found then found else old

unfoldable pub store_yubikey_info : Result ExtendedDeviceInfo → Device → Device
unfolding is_valid to_device_model
store_yubikey_info (error e) d = record d {
  device_model = to_device_model (detect_yubikey_model d.firmware_version 0 0);
}
store_yubikey_info (success info) d = record d {
  firmware_version = known_firmware info.firmware_version d.firmware_version;
  device_model = to_device_model info.device_model;
  serial_number = info.serial_number;
  form_factor = info.form_factor;
}

unfoldable pub store_nitrokey_info : TextSearch → Result ExtendedDeviceInfo → Device → Device
unfolding is_valid
store_nitrokey_info search (error e) d = record d {
  device_model = detect_nitrokey_model search d.reader_name d.firmware_version;
}
store_nitrokey_info search (success info) d =
    let firmware = known_firmware info.firmware_version d.firmware_version in
    let model = detect_nitrokey_model search d.reader_name firmware in
    record d {
      firmware_version = firmware;
      serial_number = info.serial_number;
      device_model = model;
      form_factor = model.form_factor;
    }

module _ (env : Env) (class : SessionClass (env.W)) (qt : Qt) (fuel : ℕ) where
  open env use {W}

  -- selectOathApplication with its output for the firmware: what the parser wrote, also where it
  -- reports a failure.
  unfoldable pub select_firmware : M W (Result (List ℕ) × Version)
  select_firmware = Session.◌>>=◌ (send_apdu env fuel create_select_command) λ response.
      let (out, parsed) = class.parse_select response no_select in
      if is_empty response
      then Session.pure (error select_failed, no_version)
      else if parsed
      then (Session.◌>>◌ (store_select env qt fuel out)
          (Session.pure (success out.challenge, out.firmware)))
      else Session.pure (error select_unparsed, out.firmware)

  -- The constructor after its first members: SELECT, whether or not it works, and the extended
  -- information.
  unfoldable pub initialise : (Result ExtendedDeviceInfo → Device → Device) → D W (Unit {0})
  unfolding select_firmware
  initialise store = do
    selected ← in_session select_firmware
    modify (λ d. record d { firmware_version = selected.1 })
    d ← get_device
    info ← in_session (get_extended_device_info env fuel class.parse_select d.reader_name)
    modify (store info)

  -- `createDevice`, with the limit of the configuration, if there is one.
  unfoldable pub store_rate_limit : ℕ → D W (Unit {0})
  store_rate_limit rate_limit_ms =
      modify (λ d. record d { session = set_rate_limit_ms rate_limit_ms d.session })

unfoldable pub store_info : TextSearch → DeviceBrand → Result ExtendedDeviceInfo → Device → Device
store_info search nitrokey = store_nitrokey_info search
store_info search yubikey = store_yubikey_info
store_info search unknown_brand = store_yubikey_info
