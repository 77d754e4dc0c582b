-- ===== src/Command/Nitrokey.antt =====
-- src/daemon/oath/nitrokey_secrets_oath_protocol.cpp: the commands that Nitrokey wants with a last
-- byte Le.
use yubikey_oath_krunner.Prelude.{ℕ, ◌+◌, List, [], ◌∷◌, ◌++◌, length}
use yubikey_oath_krunner.Prelude.Bytes.{byte}
use yubikey_oath_krunner.Prelude.Text.{Qt}
use yubikey_oath_krunner.Tlv.{tlv}
use yubikey_oath_krunner.Command.{tag_name, tag_challenge}

unfoldable pub create_calculate_command : Qt → List ℕ → List ℕ → List ℕ
create_calculate_command qt name challenge =
    let name_bytes = qt.to_utf8 name in
    let data_len = 1 + 1 + length name_bytes + 1 + 1 + length challenge in
    0x00
    ∷ 0xa2
    ∷ 0x00
    ∷ 0x01
    ∷ byte data_len
    ∷ (tlv tag_name name_bytes ++ (tlv tag_challenge challenge ++ 0x00 ∷ []))

unfoldable pub create_list_command : List ℕ
create_list_command = 0x00 ∷ 0xa1 ∷ 0x00 ∷ 0x00 ∷ 0x00 ∷ []

pub create_list_command_v1 : List ℕ
create_list_command_v1 = 0x00 ∷ 0xa1 ∷ 0x00 ∷ 0x00 ∷ 0x01 ∷ 0x01 ∷ 0x00 ∷ []
