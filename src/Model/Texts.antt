-- ===== src/Model/Texts.antt =====
-- src/shared/types/yubikey_model.cpp and device_model.cpp: what a model code says, and its texts. An
-- enumeration that is cast from a byte is kept as its number.
use yubikey_oath_krunner.Prelude.{
  ℕ, Bool, List, [], ◌∷◌, ◌++◌, ◌/◌, ◌%◌, ◌^◌, bit_and, not, ◌==◌, ◌&&◌, ◌||◌, leb, if◌then◌else◌,
}
use yubikey_oath_krunner.Prelude.Text.{codes}
use yubikey_oath_krunner.NitrokeyModel.{DeviceModel, yubikey}

abbrev pub yubikey5_series : ℕ
yubikey5_series = 0x01

abbrev pub yubikey5_fips_series : ℕ
yubikey5_fips_series = 0x02

abbrev pub yubikey_bio_series : ℕ
yubikey_bio_series = 0x03

abbrev pub security_key_series : ℕ
security_key_series = 0x04

abbrev pub neo_series : ℕ
neo_series = 0x10

abbrev pub yubikey4_series : ℕ
yubikey4_series = 0x11

abbrev pub yubikey4_fips_series : ℕ
yubikey4_fips_series = 0x12

abbrev pub standard_variant : ℕ
standard_variant = 0x00

abbrev pub nano : ℕ
nano = 0x01

abbrev pub dual_connector : ℕ
dual_connector = 0x02

abbrev pub enhanced_pin : ℕ
enhanced_pin = 0x10

unfoldable pub get_model_series : ℕ → ℕ
get_model_series model = model / 2 ^ 24 % 256

unfoldable pub get_model_variant : ℕ → ℕ
get_model_variant model = model / 2 ^ 16 % 256

unfoldable pub get_model_ports : ℕ → ℕ
get_model_ports model = model / 2 ^ 8 % 256

unfoldable pub get_model_capabilities : ℕ → ℕ
get_model_capabilities model = model % 256

-- `testFlag` of a flag that is not 0.
abbrev pub test_flag : ℕ → ℕ → Bool
test_flag flags flag = bit_and flags flag == flag

unfoldable pub has_nfc : ℕ → Bool
unfolding get_model_ports
has_nfc model = test_flag (get_model_ports model) 0x08

unfoldable pub is_fips : ℕ → Bool
unfolding get_model_series
is_fips model =
    get_model_series model == yubikey5_fips_series || get_model_series model == yubikey4_fips_series

unfoldable pub supports_oath : ℕ → Bool
unfolding get_model_capabilities
supports_oath model =
    test_flag (get_model_capabilities model) 0x08 || test_flag (get_model_capabilities model) 0x10

abbrev pub append_if : Bool → List ℕ → List ℕ → List ℕ
append_if test suffix name = if test then name ++ suffix else name

-- The connector, where there is only one of the USB ports, and NFC.
unfoldable pub connector_name : ℕ → ℕ → List ℕ → List ℕ
connector_name variant ports name =
    if variant == dual_connector
    then name ++ codes "Ci"
    else append_if (test_flag ports 0x08) (codes " NFC")
        (append_if (test_flag ports 0x02 && not (test_flag ports 0x01)) (codes "C") name)

unfoldable pub variant_name : ℕ → List ℕ → List ℕ
variant_name variant name =
    if variant == nano
    then name ++ codes " Nano"
    else append_if (variant == enhanced_pin) (codes " Enhanced PIN") name

unfoldable pub full_model_name : ℕ → List ℕ → List ℕ
unfolding get_model_variant get_model_ports connector_name variant_name is_fips
full_model_name model name = append_if (is_fips model) (codes " FIPS") (
    variant_name (get_model_variant model)
      (connector_name (get_model_variant model) (get_model_ports model) name))

unfoldable pub model_to_string : ℕ → List ℕ
unfolding get_model_series full_model_name
model_to_string model =
    let series = get_model_series model in
    if series == yubikey5_series || series == yubikey5_fips_series
    then full_model_name model (codes "YubiKey 5")
    else if series == yubikey_bio_series
    then full_model_name model (codes "YubiKey Bio")
    else if series == security_key_series
    then full_model_name model (codes "Security Key")
    else if series == neo_series
    then codes "YubiKey NEO"
    else if series == yubikey4_series || series == yubikey4_fips_series
    then full_model_name model (codes "YubiKey 4")
    else codes "Unknown YubiKey"

abbrev pub list_if : Bool → List ℕ → List (List ℕ) → List (List ℕ)
list_if test text texts = if test then text ∷ texts else texts

-- `capabilitiesToStringList`, and the same list once more in `toDeviceModel`.
unfoldable pub capabilities_to_string_list : ℕ → List (List ℕ)
capabilities_to_string_list caps = list_if (test_flag caps 0x01) (codes "FIDO2") (
    list_if (test_flag caps 0x02) (codes "FIDO U2F") (
      list_if (test_flag caps 0x04) (codes "Yubico OTP") (
        list_if (test_flag caps 0x08) (codes "OATH-HOTP") (
          list_if (test_flag caps 0x10) (codes "OATH-TOTP") (
            list_if (test_flag caps 0x20) (codes "PIV") (
              list_if (test_flag caps 0x40) (codes "OpenPGP")
                (list_if (test_flag caps 0x80) (codes "HMAC-SHA1") [])))))))

unfoldable pub form_factor_to_string : ℕ → List ℕ
form_factor_to_string form_factor =
    if form_factor == 0x01
    then codes "USB-A Keychain"
    else if form_factor == 0x02
    then codes "USB-A Nano"
    else if form_factor == 0x03
    then codes "USB-C Keychain"
    else if form_factor == 0x04
    then codes "USB-C Nano"
    else if form_factor == 0x05
    then codes "USB-C Lightning"
    else if form_factor == 0x06
    then codes "USB-A Bio Keychain"
    else if form_factor == 0x07
    then codes "USB-C Bio Keychain"
    else codes "Unknown"

unfoldable pub to_device_model : ℕ → DeviceModel
unfolding model_to_string capabilities_to_string_list get_model_capabilities
to_device_model model = record {
  brand = yubikey;
  model_code = model;
  model_string = model_to_string model;
  form_factor = 0;
  capabilities = capabilities_to_string_list (get_model_capabilities model);
}

-- deviceModelToString of device_model.cpp.
unfoldable pub device_model_to_string : ℕ → List ℕ
unfolding model_to_string
device_model_to_string model =
    if model == 0
    then codes "Unknown Device"
    else if model / 2 ^ 24 % 256 == 0x02 && model / 2 ^ 16 % 256 == 0x00
    then append_if (leb 0x0a (model / 2 ^ 8 % 256)) (codes " NFC") (codes "Nitrokey 3C")
    else model_to_string model
