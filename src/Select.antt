-- ===== src/Select.antt =====
-- src/daemon/oath/oath_protocol.cpp and yk_oath_protocol.cpp, parseSelectResponse. The output
-- parameters are a record that the function takes and returns.
pub mod Laws
use yubikey_oath_krunner.Prelude.{
  ℕ, ◌-◌, Bool, true, false, List, [], ◌∷◌, ◌++◌, ltb, ◌==◌, ◌&&◌, not, if◌then◌else◌, is_empty,
  length, get_or, replicate,
}
use yubikey_oath_krunner.Prelude.Bytes.{be32}
use yubikey_oath_krunner.Prelude.Text.{Qt}
use yubikey_oath_krunner.Tlv.{for_each_tlv}
use yubikey_oath_krunner.Status.{get_status_word, is_success, payload}
use yubikey_oath_krunner.Version.{Version}
use yubikey_oath_krunner.Command.{tag_name, tag_challenge, tag_version, tag_serial_number}

pub record SelectOut : Type 0 where
  pub device_id : List ℕ
  pub challenge : List ℕ
  pub firmware : Version
  pub requires_password : Bool
  pub serial_number : ℕ

-- The local variables of the loop, beside the output parameters.
pub record Seen : Type 0 where
  pub out : SelectOut
  pub name_salt : List ℕ
  pub serial_bytes : List ℕ
  pub has_challenge : Bool

abbrev pub be32_of : List ℕ → ℕ
be32_of bytes = be32 (get_or bytes 0 0) (get_or bytes 1 0) (get_or bytes 2 0) (get_or bytes 3 0)

unfoldable pub select_body : ℕ → List ℕ → Seen → Seen
select_body tag value s =
    if tag == tag_name
    then record s { name_salt = value }
    else if tag == tag_challenge
    then record s { out = record (s.out) { challenge = value }; has_challenge = true }
    else if tag == tag_version
    then (if length value == 3
        then record s {
          out = record (s.out) {
            firmware = record {
              major = get_or value 0 0;
              minor = get_or value 1 0;
              patch = get_or value 2 0;
            };
          };
        }
        else s)
    else if tag == tag_serial_number
    then (if length value == 4
        then record s {
          out = record (s.out) { serial_number = be32_of value };
          serial_bytes = value;
        }
        else s)
    else s

-- `rightJustified(16, '0')`.
abbrev pub right_justified_16 : List ℕ → List ℕ
right_justified_16 t = replicate (16 - length t) b'0' ++ t

-- The device id: the serial number before the name.
unfoldable pub device_id_of : Qt → Seen → List ℕ
device_id_of qt s =
    if not (is_empty s.serial_bytes)
    then right_justified_16 (qt.to_hex s.serial_bytes)
    else if not (is_empty s.name_salt)
    then qt.to_hex s.name_salt
    else s.out.device_id

abbrev pub start_select : SelectOut → Seen
start_select out = record {
  out = record out { requires_password = false; serial_number = 0 };
  name_salt = [];
  serial_bytes = [];
  has_challenge = false;
}

unfoldable pub finish_select : Qt → Seen → SelectOut × Bool
finish_select qt s =
    let id = device_id_of qt s in
    (record (s.out) { device_id = id; requires_password = s.has_challenge }, not (is_empty id))

unfoldable pub parse_select_response : Qt → List ℕ → SelectOut → SelectOut × Bool
parse_select_response qt response out =
    let d = payload response in
    if ltb (length response) 2
    then (out, false)
    else if not (is_success (get_status_word response))
    then (out, false)
    else finish_select qt (for_each_tlv (length d) select_body d (start_select out))

-- YubiKey's version is the same code once more; Nitrokey's calls the base class.
unfoldable pub yk_parse_select_response : Qt → List ℕ → SelectOut → SelectOut × Bool
yk_parse_select_response qt response out =
    let d = payload response in
    if ltb (length response) 2
    then (out, false)
    else if not (is_success (get_status_word response))
    then (out, false)
    else finish_select qt (for_each_tlv (length d) select_body d (start_select out))

unfoldable pub nitrokey_parse_select_response : Qt → List ℕ → SelectOut → SelectOut × Bool
nitrokey_parse_select_response qt response out = parse_select_response qt response out
