-- ===== src/Model.antt =====
-- src/shared/types/yubikey_model.cpp: the model of a YubiKey from its firmware, its form factor and
-- its NFC interfaces, where no output of ykman is at hand. Ports and capabilities are sets of bits.
pub mod Texts
pub mod Ykman
pub mod Shown
use yubikey_oath_krunner.Prelude.{
  ℕ, true, false, ◌+◌, ◌*◌, ◌^◌, Bool, not, ◌==◌, ◌&&◌, ◌||◌, if◌then◌else◌, bit_and, bit_or,
}
use yubikey_oath_krunner.Version.{Version, is_valid, lt, ge}

-- The series that a firmware can stand for.
pub data YubiKeySeries : Type 0 where
  unknown_series yubikey5 neo yubikey4 : YubiKeySeries

abbrev pub series_code : YubiKeySeries → ℕ
series_code unknown_series = 0x00
series_code yubikey5 = 0x01
series_code neo = 0x10
series_code yubikey4 = 0x11

unfoldable pub detect_series_from_firmware : Version → YubiKeySeries
unfolding is_valid
detect_series_from_firmware firmware =
    if not (is_valid firmware)
    then unknown_series
    else if firmware.major == 5
    then yubikey5
    else if firmware.major == 4
    then yubikey4
    else if firmware.major == 3
    then neo
    else unknown_series

abbrev pub usb_a : ℕ
usb_a = 0x01

abbrev pub usb_c : ℕ
usb_c = 0x02

abbrev pub lightning : ℕ
lightning = 0x04

abbrev pub nfc : ℕ
nfc = 0x08

unfoldable pub form_factor_to_ports : ℕ → ℕ
form_factor_to_ports form_factor =
    if form_factor == 0x01 || (form_factor == 0x02 || form_factor == 0x06)
    then usb_a
    else if form_factor == 0x03 || (form_factor == 0x04 || form_factor == 0x07)
    then usb_c
    else if form_factor == 0x05
    then bit_or usb_c lightning
    else usb_a

-- `createModel` with the standard variant 0. The four parts are bytes at different places.
unfoldable pub create_model : YubiKeySeries → ℕ → ℕ → ℕ
create_model series ports capabilities = series_code series * 2 ^ 24 + ports * 2 ^ 8 + capabilities

-- All capabilities for a YubiKey 5; all but FIDO2 for an older key.
abbrev pub capabilities_of : YubiKeySeries → ℕ
capabilities_of unknown_series = 0x00
capabilities_of yubikey5 = 0xff
capabilities_of neo = 0xfe
capabilities_of yubikey4 = 0xfe

abbrev pub with_neo_nfc : YubiKeySeries → ℕ → ℕ
with_neo_nfc unknown_series ports = ports
with_neo_nfc yubikey5 ports = ports
with_neo_nfc neo ports = bit_or ports nfc
with_neo_nfc yubikey4 ports = ports

abbrev pub is_unknown : YubiKeySeries → Bool
is_unknown unknown_series = true
is_unknown yubikey5 = false
is_unknown neo = false
is_unknown yubikey4 = false

-- `detectYubiKeyModel` without output of ykman.
unfoldable pub detect_yubikey_model : Version → ℕ → ℕ → ℕ
unfolding detect_series_from_firmware form_factor_to_ports create_model ge lt
detect_yubikey_model firmware form_factor nfc_supported =
    let series = detect_series_from_firmware firmware in
    let wired = if not (form_factor == 0) then form_factor_to_ports form_factor else usb_a in
    let announced = if not (nfc_supported == 0) then bit_or wired nfc else wired in
    let guessed =
      if nfc_supported == 0
        && (form_factor == 0
            && (ge firmware (record { major = 5; minor = 0; patch = 0 })
                && (lt firmware (record { major = 6; minor = 0; patch = 0 })
                    && not (bit_and announced usb_a == 0))))
      then bit_or announced nfc
      else announced in
    if is_unknown series
    then 0
    else create_model series (with_neo_nfc series guessed) (capabilities_of series)
