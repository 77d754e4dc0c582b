-- ===== src/Management.antt =====
-- src/daemon/oath/management_protocol.cpp and management_protocol.h: the device information of a
-- YubiKey.
pub mod Device
use yubikey_oath_krunner.Prelude.{
  ℕ, zero, suc, ◌+◌, ◌-◌, ◌*◌, Bool, true, false, List, [], ◌∷◌, ◌++◌, Option, none, some, ltb, leb,
  ◌==◌, ◌&&◌, not, if◌then◌else◌, is_empty, length, get_or, take, drop,
}
use yubikey_oath_krunner.Prelude.Bytes.{be32}
use yubikey_oath_krunner.Tlv.{next_tlv}
use yubikey_oath_krunner.Status.{get_status_word, is_success}
use yubikey_oath_krunner.Version.{Version}

abbrev pub management_aid : List ℕ
management_aid = 0xa0 ∷ 0x00 ∷ 0x00 ∷ 0x05 ∷ 0x27 ∷ 0x20 ∷ 0x01 ∷ 0x01 ∷ []

unfoldable pub create_select_management_command : List ℕ
create_select_management_command =
    0x00 ∷ 0xa4 ∷ 0x04 ∷ 0x00 ∷ length management_aid ∷ management_aid

unfoldable pub create_get_device_info_command : List ℕ
create_get_device_info_command = 0x00 ∷ 0x01 ∷ 0x13 ∷ 0x00 ∷ []

abbrev pub tag_usb_supported : ℕ
tag_usb_supported = 0x01

abbrev pub tag_serial : ℕ
tag_serial = 0x02

abbrev pub tag_usb_enabled : ℕ
tag_usb_enabled = 0x03

abbrev pub tag_form_factor : ℕ
tag_form_factor = 0x04

abbrev pub tag_firmware_version : ℕ
tag_firmware_version = 0x05

abbrev pub tag_auto_eject_timeout : ℕ
tag_auto_eject_timeout = 0x06

abbrev pub tag_challenge_response_timeout : ℕ
tag_challenge_response_timeout = 0x07

abbrev pub tag_device_flags : ℕ
tag_device_flags = 0x08

abbrev pub tag_config_locked : ℕ
tag_config_locked = 0x0a

abbrev pub tag_nfc_supported : ℕ
tag_nfc_supported = 0x0d

abbrev pub tag_nfc_enabled : ℕ
tag_nfc_enabled = 0x0e

pub record ManagementDeviceInfo : Type 0 where
  pub serial_number : ℕ
  pub firmware_version : Version
  pub form_factor : ℕ
  pub usb_supported : ℕ
  pub usb_enabled : ℕ
  pub nfc_supported : ℕ
  pub nfc_enabled : ℕ
  pub config_locked : Bool
  pub fips : Bool
  pub sky : Bool
  pub device_flags : ℕ
  pub auto_eject_timeout : ℕ
  pub challenge_response_timeout : ℕ

-- A `QMap` of records: the record that was stored last stands first, and `value_of` reads that one.
abbrev pub TlvMap : Type 0
TlvMap = List (ℕ × List ℕ)

unfoldable pub value_of : ℕ → TlvMap → Option (List ℕ)
value_of tag [] = none
value_of tag ((t, value) ∷ rest) = if t == tag then some value else value_of tag rest

-- The two bytes of a status word at the loop's position.
abbrev pub at_status_word : List ℕ → Bool
at_status_word [] = false
at_status_word (a ∷ []) = false
at_status_word (a ∷ b ∷ rest) = a == 0x90 && b == 0x00

unfoldable pub parse_tlv_loop : ℕ → List ℕ → TlvMap → TlvMap
parse_tlv_loop zero data' result = result
parse_tlv_loop (suc fuel) data' result =
    let later : TlvMap = elim (next_tlv data') [
      | none ↦ result
      | some (tag, value, rest) ↦ parse_tlv_loop fuel rest ((tag, value) ∷ result)
    ] in
    if at_status_word data' then result else later

-- Each round takes two bytes at least.
unfoldable pub parse_tlv : List ℕ → TlvMap
parse_tlv data' = parse_tlv_loop (length data') data' []

-- A field of one byte, and of two; a value of another length leaves it as it is.
abbrev pub byte_field : ℕ → Option (List ℕ) → ℕ
byte_field old none = old
byte_field old (some v) = if length v == 1 then get_or v 0 0 else old

abbrev pub word_field : ℕ → Option (List ℕ) → ℕ
word_field old none = old
word_field old (some v) = if length v == 2 then get_or v 0 0 * 256 + get_or v 1 0 else old

-- The NFC fields have two bytes on newer keys and one on older ones.
abbrev pub nfc_field : ℕ → Option (List ℕ) → ℕ
nfc_field old none = old
nfc_field old (some v) =
    if length v == 2
    then get_or v 0 0 * 256 + get_or v 1 0
    else if length v == 1
    then get_or v 0 0
    else old

abbrev pub serial_field : ℕ → Option (List ℕ) → ℕ
serial_field old none = old
serial_field old (some v) =
    if length v == 4 then be32 (get_or v 0 0) (get_or v 1 0) (get_or v 2 0) (get_or v 3 0) else old

abbrev pub firmware_field : Version → Option (List ℕ) → Version
firmware_field old none = old
firmware_field old (some v) =
    if leb 3 (length v)
    then record { major = get_or v 0 0; minor = get_or v 1 0; patch = get_or v 2 0 }
    else old

abbrev pub locked_field : Bool → Option (List ℕ) → Bool
locked_field old none = old
locked_field old (some v) = if length v == 1 then not (get_or v 0 0 == 0) else old

-- The fields that a map sets.
unfoldable pub fill : (ℕ → Option (List ℕ)) → ManagementDeviceInfo → ManagementDeviceInfo
fill value info = record info {
  serial_number = serial_field info.serial_number (value tag_serial);
  firmware_version = firmware_field info.firmware_version (value tag_firmware_version);
  form_factor = byte_field info.form_factor (value tag_form_factor);
  usb_supported = byte_field info.usb_supported (value tag_usb_supported);
  usb_enabled = byte_field info.usb_enabled (value tag_usb_enabled);
  nfc_supported = nfc_field info.nfc_supported (value tag_nfc_supported);
  nfc_enabled = nfc_field info.nfc_enabled (value tag_nfc_enabled);
  config_locked = locked_field info.config_locked (value tag_config_locked);
  device_flags = word_field info.device_flags (value tag_device_flags);
  auto_eject_timeout = byte_field info.auto_eject_timeout (value tag_auto_eject_timeout);
  challenge_response_timeout =
      byte_field info.challenge_response_timeout (value tag_challenge_response_timeout);
}

-- `response.mid(1, response.length() - 3)`, which for a length of -1 goes to the end.
abbrev pub between : List ℕ → List ℕ
between response =
    if length response == 2 then drop 1 response else take (length response - 3) (drop 1 response)

-- The first byte of a response is the length of its data, which is not read.
unfoldable pub parse_device_info_response :
    List ℕ → ManagementDeviceInfo → ManagementDeviceInfo × Bool
parse_device_info_response response info =
    let map = parse_tlv (between response) in
    if ltb (length response) 2
    then (info, false)
    else if not (is_success (get_status_word response))
    then (info, false)
    else if is_empty map
    then (info, false)
    else (fill (λ tag. value_of tag map) info, true)
