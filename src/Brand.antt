-- ===== src/Brand.antt =====
-- src/shared/types/device_brand.cpp: the brand of a device.
use yubikey_oath_krunner.Prelude.{
  ℕ, Bool, true, false, List, not, ◌==◌, ◌&&◌, ◌||◌, ltb, if◌then◌else◌,
}
use yubikey_oath_krunner.Prelude.Text.{codes}
use yubikey_oath_krunner.Version.{Version, ge, lt}
use yubikey_oath_krunner.NitrokeyModel.{TextSearch, DeviceBrand, unknown_brand, yubikey, nitrokey}

unfoldable pub detect_brand : TextSearch → List ℕ → Version → Bool → DeviceBrand
unfolding ge lt
detect_brand search reader_name firmware has_select_serial =
    if search.contains false reader_name (codes "Nitrokey")
    then nitrokey
    else if search.contains false reader_name (codes "Yubico")
        || search.contains false reader_name (codes "YubiKey")
    then yubikey
    else if has_select_serial && ge firmware (record { major = 4; minor = 14; patch = 0 })
    then nitrokey
    else if firmware.major == 5 && not has_select_serial
    then yubikey
    else if ltb firmware.major 5 && not has_select_serial
    then yubikey
    else yubikey

unfoldable pub brand_prefix : DeviceBrand → List ℕ
brand_prefix yubikey = codes "yubikey"
brand_prefix nitrokey = codes "nitrokey"
brand_prefix unknown_brand = codes "oath-device"

unfoldable pub is_brand_supported : DeviceBrand → Bool
is_brand_supported yubikey = true
is_brand_supported nitrokey = true
is_brand_supported unknown_brand = false

unfoldable pub detect_brand_from_model_string : TextSearch → List ℕ → DeviceBrand
detect_brand_from_model_string search model_string =
    if search.contains false model_string (codes "Nitrokey")
    then nitrokey
    else if search.contains false model_string (codes "YubiKey")
    then yubikey
    else yubikey
