-- ===== src/Command/Built.antt =====
-- What a card reads in the commands that the daemon builds.
use yubikey_oath_krunner.Prelude.{
  ℕ, suc, ◌+◌, ◌<◌, ◌≡◌, List, [], ◌∷◌, ◌++◌, Option, none, some, arith, append_assoc, append-nil,
  length, length-append,
}
use yubikey_oath_krunner.Prelude.Text.{Qt}
use yubikey_oath_krunner.Tlv.{tlv}
use yubikey_oath_krunner.Tlv.RoundTrip.{encode}
use yubikey_oath_krunner.Command.{
  tag_name, tag_key, tag_challenge, tag_response, create_calculate_command, create_validate_command,
  create_delete_command, create_set_code_command,
}
use yubikey_oath_krunner.Command.Nitrokey
use yubikey_oath_krunner.Command.Apdu.{Apdu, parse_apdu, parse_apdu-data, parse_apdu-data_le}

-- A command with class byte 0 whose data are the given records.
abbrev pub carrying : ℕ → ℕ → List (ℕ × List ℕ) → Option ℕ → Option Apdu
carrying ins p2 rs le =
    some (record { cla = 0; ins = ins; p1 = 0; p2 = p2; content = encode rs; le = le })

-- CALCULATE carries the credential's name and the challenge, under an Lc that counts both, if they
-- fit one APDU.
pub calculate_apdu :
    (qt : Qt) (name challenge : List ℕ)
    → length (qt.to_utf8 name) + length challenge + 4 < 256
    → parse_apdu (create_calculate_command qt name challenge)
      ≡ carrying 0xa2 0x01 ((tag_name, qt.to_utf8 name) ∷ (tag_challenge, challenge) ∷ []) none
unfolding create_calculate_command tlv
calculate_apdu qt name challenge h = rw (append-nil) (
    parse_apdu-data 0 0xa2 0 1 _ _ _
      (omega (arith, length-append (qt.to_utf8 name) (tlv tag_challenge challenge))))

pub nitrokey_calculate_apdu :
    (qt : Qt) (name challenge : List ℕ)
    → length (qt.to_utf8 name) + length challenge + 4 < 256
    → parse_apdu (Nitrokey.create_calculate_command qt name challenge)
      ≡ carrying 0xa2 0x01 ((tag_name, qt.to_utf8 name) ∷ (tag_challenge, challenge) ∷ []) (some 0)
unfolding Nitrokey.create_calculate_command tlv
nitrokey_calculate_apdu qt name challenge h =
    rw (append-nil, ← append_assoc (qt.to_utf8 name) (tlv tag_challenge challenge) (0 ∷ []))
      (parse_apdu-data_le 0 0xa2 0 1 _ _ _ 0
        (omega (arith, length-append (qt.to_utf8 name) (tlv tag_challenge challenge))))

-- VALIDATE carries the HMAC response and the daemon's own challenge.
pub validate_apdu :
    (response challenge : List ℕ)
    → length response + length challenge + 4 < 256
    → parse_apdu (create_validate_command response challenge)
      ≡ carrying 0xa3 0x00 ((tag_response, response) ∷ (tag_challenge, challenge) ∷ []) none
unfolding create_validate_command tlv
validate_apdu response challenge h = rw (append-nil) (
    parse_apdu-data 0 0xa3 0 0 _ _ _
      (omega (arith, length-append response (tlv tag_challenge challenge))))

pub delete_apdu :
    (qt : Qt) (name : List ℕ)
    → length (qt.to_utf8 name) + 2 < 256
    → parse_apdu (create_delete_command qt name)
      ≡ carrying 0x02 0x00 ((tag_name, qt.to_utf8 name) ∷ []) none
unfolding create_delete_command tlv
delete_apdu qt name h = rw (append-nil) (parse_apdu-data 0 0x02 0 0 _ _ _ (omega arith))

-- SET CODE carries the key behind its algorithm byte, the challenge and the response to it.
pub set_code_apdu :
    (key challenge response : List ℕ)
    → length key + length challenge + length response + 7 < 256
    → parse_apdu (create_set_code_command key challenge response)
      ≡ carrying 0x03 0x00
          ((tag_key, 0x01 ∷ key) ∷ (tag_challenge, challenge) ∷ (tag_response, response) ∷ [])
          none
unfolding create_set_code_command tlv
set_code_apdu key challenge response h =
    let n : 1 + length key ≡ suc (length key) = omega arith in
    rw (append-nil, n)
      (parse_apdu-data 0 0x03 0 0 _ _ _ (
        omega (
          arith,
          length-append key (tlv tag_challenge challenge ++ tlv tag_response response),
          length-append challenge (tlv tag_response response),
        )))
