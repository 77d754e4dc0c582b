-- ===== src/Command.antt =====
-- src/daemon/oath/oath_protocol.cpp and nitrokey_secrets_oath_protocol.cpp: the builders of command
-- APDUs. `command.append` is `++`; a length that is cast to a byte wraps at 256.
pub mod Apdu
pub mod Built
pub mod Nitrokey
pub mod Put
use yubikey_oath_krunner.Prelude.{
  ℕ, ◌+◌, ◌-◌, ◌*◌, ◌/◌, ◌%◌, ◌^◌, Bool, List, [], ◌∷◌, ◌++◌, ltb, ◌==◌, if◌then◌else◌, is_empty,
  length, take, replicate,
}
use yubikey_oath_krunner.Prelude.Bytes.{byte}
use yubikey_oath_krunner.Prelude.Int.{byte_of}
use yubikey_oath_krunner.Prelude.Text.{Qt}
use yubikey_oath_krunner.Tlv.{tlv}
use yubikey_oath_krunner.Base32.{decode_base32}
use yubikey_oath_krunner.Credential.{OathCredentialData, hotp}

abbrev pub tag_name : ℕ
tag_name = 0x71

abbrev pub tag_name_list : ℕ
tag_name_list = 0x72

abbrev pub tag_key : ℕ
tag_key = 0x73

abbrev pub tag_challenge : ℕ
tag_challenge = 0x74

abbrev pub tag_response : ℕ
tag_response = 0x75

abbrev pub tag_totp_response : ℕ
tag_totp_response = 0x76

abbrev pub tag_hotp : ℕ
tag_hotp = 0x77

abbrev pub tag_property : ℕ
tag_property = 0x78

abbrev pub tag_version : ℕ
tag_version = 0x79

abbrev pub tag_imf : ℕ
tag_imf = 0x7a

abbrev pub tag_touch : ℕ
tag_touch = 0x7c

abbrev pub tag_serial_number : ℕ
tag_serial_number = 0x8f

abbrev pub oath_aid : List ℕ
oath_aid = 0xa0 ∷ 0x00 ∷ 0x00 ∷ 0x05 ∷ 0x27 ∷ 0x21 ∷ 0x01 ∷ []

abbrev pub otp_aid : List ℕ
otp_aid = 0xa0 ∷ 0x00 ∷ 0x00 ∷ 0x05 ∷ 0x27 ∷ 0x20 ∷ 0x01 ∷ 0x01 ∷ []

abbrev pub piv_aid : List ℕ
piv_aid = 0xa0 ∷ 0x00 ∷ 0x00 ∷ 0x03 ∷ 0x08 ∷ 0x00 ∷ 0x00 ∷ 0x10 ∷ 0x00 ∷ []

unfoldable pub create_select_command : List ℕ
create_select_command = 0x00 ∷ 0xa4 ∷ 0x04 ∷ 0x00 ∷ byte (length oath_aid) ∷ (oath_aid ++ 0x00 ∷ [])

unfoldable pub create_list_command : List ℕ
create_list_command = 0x00 ∷ 0xa1 ∷ 0x00 ∷ 0x00 ∷ []

unfoldable pub create_calculate_command : Qt → List ℕ → List ℕ → List ℕ
create_calculate_command qt name challenge =
    let name_bytes = qt.to_utf8 name in
    let data_len = 1 + 1 + length name_bytes + 1 + 1 + length challenge in
    0x00
    ∷ 0xa2
    ∷ 0x00
    ∷ 0x01
    ∷ byte data_len
    ∷ (tlv tag_name name_bytes ++ tlv tag_challenge challenge)

unfoldable pub create_calculate_all_command : List ℕ → List ℕ
create_calculate_all_command challenge =
    0x00 ∷ 0xa4 ∷ 0x00 ∷ 0x01 ∷ byte (1 + 1 + length challenge) ∷ tlv tag_challenge challenge

unfoldable pub create_validate_command : List ℕ → List ℕ → List ℕ
create_validate_command response challenge =
    let data_len = 1 + 1 + length response + 1 + 1 + length challenge in
    0x00
    ∷ 0xa3
    ∷ 0x00
    ∷ 0x00
    ∷ byte data_len
    ∷ (tlv tag_response response ++ tlv tag_challenge challenge)

unfoldable pub create_send_remaining_command : List ℕ
create_send_remaining_command = 0x00 ∷ 0xa5 ∷ 0x00 ∷ 0x00 ∷ 0x00 ∷ []

-- `if (nameBytes.length() > 64) nameBytes = nameBytes.left(64);`
unfoldable pub limit_name : List ℕ → List ℕ
limit_name name_bytes = if ltb 64 (length name_bytes) then take 64 name_bytes else name_bytes

-- `while (keyBytes.length() < 14) keyBytes.append(0);`
unfoldable pub pad_key : List ℕ → List ℕ
pad_key key_bytes = key_bytes ++ replicate (14 - length key_bytes) 0x00

-- `(typeBits << 4) | algoBits` of two nibbles.
unfoldable pub algo_byte : ℕ → ℕ → ℕ
algo_byte type algorithm = type % 16 * 16 + algorithm % 16

-- A property has no length byte.
unfoldable pub touch_property : Bool → List ℕ
touch_property require_touch = if require_touch then tag_property ∷ 0x02 ∷ [] else []

unfoldable pub initial_counter : ℕ → ℕ → List ℕ
initial_counter type counter =
    if type == hotp
    then tag_imf
      ∷ 0x04
      ∷ byte (counter / 2 ^ 24)
      ∷ byte (counter / 2 ^ 16)
      ∷ byte (counter / 2 ^ 8)
      ∷ byte counter
      ∷ []
    else []

unfoldable pub put_data : List ℕ → List ℕ → OathCredentialData → List ℕ
unfolding limit_name pad_key algo_byte touch_property initial_counter
put_data name_bytes key_bytes d =
    let key_tag_data = algo_byte d.type d.algorithm ∷ byte_of d.digits ∷ pad_key key_bytes in
    tlv tag_name (limit_name name_bytes)
    ++ (tlv tag_key key_tag_data
        ++ (touch_property d.require_touch ++ initial_counter d.type d.counter))

-- The empty array where the secret decodes to nothing.
unfoldable pub create_put_command : Qt → OathCredentialData → List ℕ
unfolding put_data
create_put_command qt d =
    let key_bytes = decode_base32 qt d.secret in
    let tlv_data = put_data (qt.to_utf8 d.name) key_bytes d in
    if is_empty key_bytes then [] else 0x00 ∷ 0x01 ∷ 0x00 ∷ 0x00 ∷ byte (length tlv_data) ∷ tlv_data

unfoldable pub create_delete_command : Qt → List ℕ → List ℕ
create_delete_command qt name =
    let tlv_data = tlv tag_name (qt.to_utf8 name) in
    0x00 ∷ 0x02 ∷ 0x00 ∷ 0x00 ∷ byte (length tlv_data) ∷ tlv_data

unfoldable pub create_set_code_command : List ℕ → List ℕ → List ℕ → List ℕ
create_set_code_command key challenge response =
    let tlv_data =
      (tag_key ∷ byte (1 + length key) ∷ 0x01 ∷ key)
      ++ (tlv tag_challenge challenge ++ tlv tag_response response) in
    0x00 ∷ 0x03 ∷ 0x00 ∷ 0x00 ∷ byte (length tlv_data) ∷ tlv_data

unfoldable pub create_remove_code_command : List ℕ
create_remove_code_command = 0x00 ∷ 0x03 ∷ 0x00 ∷ 0x00 ∷ 0x02 ∷ tag_key ∷ 0x00 ∷ []

unfoldable pub create_select_otp_command : List ℕ
create_select_otp_command = 0x00 ∷ 0xa4 ∷ 0x04 ∷ 0x00 ∷ byte (length otp_aid) ∷ otp_aid

unfoldable pub create_otp_get_serial_command : List ℕ
create_otp_get_serial_command = 0x00 ∷ 0x01 ∷ 0x10 ∷ 0x00 ∷ 0x00 ∷ []

unfoldable pub create_select_piv_command : List ℕ
create_select_piv_command = 0x00 ∷ 0xa4 ∷ 0x04 ∷ 0x00 ∷ byte (length piv_aid) ∷ piv_aid

unfoldable pub create_get_serial_command : List ℕ
create_get_serial_command = 0x00 ∷ 0xf8 ∷ 0x00 ∷ 0x00 ∷ []
