-- ===== src/Examples/Names.antt =====
-- Examples of path elements, device information and serial numbers.
use yubikey_oath_krunner.Prelude.{ℕ, ◌≤◌, ◌≡◌, true, false, List, [], ◌∷◌, arith, length, All}
use yubikey_oath_krunner.Prelude.Digits.{IsDigit}
use yubikey_oath_krunner.Prelude.Text.{codes}
use yubikey_oath_krunner.Version.{no_version}
use yubikey_oath_krunner.Encoder as Encoder
use yubikey_oath_krunner.Encoder.Safe.{all_safe, StartsWell, WritesHex, encode-safe}
use yubikey_oath_krunner.Management.{ManagementDeviceInfo}
use yubikey_oath_krunner.Examples.Data.{ascii, hex_bytes}

hex_bytes-WritesHex : WritesHex hex_bytes
unfolding hex_bytes
hex_bytes-WritesHex [] = tt
hex_bytes-WritesHex (b ∷ bs) = (ground arith, (ground arith, hex_bytes-WritesHex bs))

encode-safe_example :
    (all_safe (Encoder.encode ascii (λ t. t) (codes "7.Key")) ≡ true)
    × StartsWell (Encoder.encode ascii (λ t. t) (codes "7.Key"))
    × (length (Encoder.encode ascii (λ t. t) (codes "7.Key")) ≤ 200)
encode-safe_example = encode-safe ascii (λ t. t) (codes "7.Key") hex_bytes-WritesHex

abbrev unknown : ManagementDeviceInfo
unknown = record {
  serial_number = 0;
  firmware_version = no_version;
  form_factor = 0;
  usb_supported = 0;
  usb_enabled = 0;
  nfc_supported = 0;
  nfc_enabled = 0;
  config_locked = false;
  fips = false;
  sky = false;
  device_flags = 0;
  auto_eject_timeout = 0;
  challenge_response_timeout = 0;
}

abbrev device_records : List (ℕ × List ℕ)
device_records = (0x02, 0 ∷ 1 ∷ 2 ∷ 3 ∷ []) ∷ (0x05, 5 ∷ 4 ∷ 3 ∷ []) ∷ []

abbrev ten_digits : List ℕ
ten_digits = codes "0003507404"

ten_digits-IsDigit : All IsDigit ten_digits
ten_digits-IsDigit = ground arith
