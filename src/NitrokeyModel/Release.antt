-- ===== src/NitrokeyModel/Release.antt =====
-- The tests of major and minor number against the order of versions.
use yubikey_oath_krunner.Prelude.{ℕ, ◌≡◌, ◌≤◌, ◌<◌, true, List, arith, if◌then◌else◌}
use yubikey_oath_krunner.Prelude.Text.{codes}
use yubikey_oath_krunner.Version.{Version, lt, ge}
use yubikey_oath_krunner.NitrokeyModel.{
  TextSearch, is_nitrokey3_reader, detect_usb_variant, has_nfc, generate_model_string, ports_of,
  detect_nitrokey_model,
}

-- The first firmware of a minor release.
abbrev pub first_of : ℕ → ℕ → Version
first_of major minor = record { major = major; minor = minor; patch = 0 }

-- For a Nitrokey 3 with a firmware 1.x.y the detected model follows the order of versions: from 1.6.0
-- on a 3C NFC, with ports USB-C and NFC; from 1.5.0 on a 3A NFC, with USB-A and NFC; before that a 3A
-- with USB-A. All have the four capabilities.
pub detect_nitrokey_model-ge :
    (search : TextSearch) (reader_name : List ℕ) (firmware : Version)
    → is_nitrokey3_reader search reader_name ≡ true
    → firmware.major ≡ 1
    → ((detect_nitrokey_model search reader_name firmware).model_code ≡ (
        if ge firmware (first_of 1 6)
        then 0x02000a0f
        else if ge firmware (first_of 1 5)
        then 0x0100090f
        else 0x0100010f))
      × ((detect_nitrokey_model search reader_name firmware).model_string ≡ (
          if ge firmware (first_of 1 6)
          then codes "Nitrokey 3C NFC"
          else if ge firmware (first_of 1 5)
          then codes "Nitrokey 3A NFC"
          else codes "Nitrokey 3A"))
unfolding detect_nitrokey_model detect_usb_variant has_nfc generate_model_string ports_of ge lt
detect_nitrokey_model-ge search reader_name firmware h one = (ground (arith, h), ground (arith, h))

-- From 2.0.0 on the order is not followed: a firmware whose minor number is below 5 is detected as a
-- 3A without NFC, although it is no older than 1.6.0.
pub detect_nitrokey_model-later :
    (search : TextSearch) (reader_name : List ℕ) (firmware : Version)
    → is_nitrokey3_reader search reader_name ≡ true
    → 2 ≤ firmware.major
    → firmware.minor < 5
    → (ge firmware (first_of 1 6) ≡ true)
      × ((detect_nitrokey_model search reader_name firmware).model_code ≡ 0x0100010f)
unfolding detect_nitrokey_model detect_usb_variant has_nfc generate_model_string ports_of ge lt
detect_nitrokey_model-later search reader_name firmware h major minor =
    (ground (arith, major, minor), ground (arith, h, major, minor))
