-- ===== src/NitrokeyModel.antt =====
-- src/daemon/oath/nitrokey_model_detector.cpp: the model of a Nitrokey 3 from the name of its reader
-- and its firmware.
pub mod Release
use yubikey_oath_krunner.Prelude.{
  ℕ, Bool, true, false, List, [], ◌∷◌, ◌++◌, ◌+◌, ◌*◌, ◌^◌, not, ◌&&◌, leb, bit_or, if◌then◌else◌,
}
use yubikey_oath_krunner.Prelude.Text.{codes}
use yubikey_oath_krunner.Version.{Version}

-- `QString::contains` with the sensitivity to case (true) or without it.
pub record TextSearch : Type 0 where
  pub contains : Bool → List ℕ → List ℕ → Bool

pub data DeviceBrand : Type 0 where
  unknown_brand yubikey nitrokey : DeviceBrand

pub record DeviceModel : Type 0 where
  pub brand : DeviceBrand
  pub model_code : ℕ
  pub model_string : List ℕ
  pub form_factor : ℕ
  pub capabilities : List (List ℕ)

pub data NitrokeyGeneration : Type 0 where
  nk3a nk3c nk3a_mini nk3c_mini : NitrokeyGeneration

abbrev pub generation_code : NitrokeyGeneration → ℕ
generation_code nk3a = 0x01
generation_code nk3c = 0x02
generation_code nk3a_mini = 0x04
generation_code nk3c_mini = 0x05

abbrev port_usb_a : ℕ
port_usb_a = 0x01

abbrev port_usb_c : ℕ
port_usb_c = 0x02

abbrev port_nfc : ℕ
port_nfc = 0x08

unfoldable pub is_nitrokey3_reader : TextSearch → List ℕ → Bool
is_nitrokey3_reader search reader_name =
    search.contains false reader_name (codes "Nitrokey")
    && search.contains true reader_name (codes "3")

-- The serial number only appears in a log message.
unfoldable pub detect_usb_variant : Version → NitrokeyGeneration
detect_usb_variant firmware = if leb 1 firmware.major && leb 6 firmware.minor then nk3c else nk3a

abbrev pub is_mini : NitrokeyGeneration → Bool
is_mini nk3a = false
is_mini nk3c = false
is_mini nk3a_mini = true
is_mini nk3c_mini = true

unfoldable pub has_nfc : Version → NitrokeyGeneration → Bool
has_nfc firmware generation =
    if is_mini generation then false else leb 1 firmware.major && leb 5 firmware.minor

abbrev pub get_capabilities : List (List ℕ)
get_capabilities =
    codes "FIDO2" ∷ codes "OATH-HOTP" ∷ codes "OATH-TOTP" ∷ codes "OpenPGP" ∷ codes "PIV" ∷ []

abbrev pub base_text : NitrokeyGeneration → List ℕ
base_text nk3a = codes "Nitrokey 3A"
base_text nk3c = codes "Nitrokey 3C"
base_text nk3a_mini = codes "Nitrokey 3A Mini"
base_text nk3c_mini = codes "Nitrokey 3C Mini"

unfoldable pub generate_model_string : NitrokeyGeneration → Bool → List ℕ
generate_model_string generation nfc_capable =
    if nfc_capable then base_text generation ++ codes " NFC" else base_text generation

abbrev pub usb_port : NitrokeyGeneration → ℕ
usb_port nk3a = port_usb_a
usb_port nk3c = port_usb_c
usb_port nk3a_mini = port_usb_a
usb_port nk3c_mini = port_usb_c

unfoldable pub ports_of : NitrokeyGeneration → Bool → ℕ
ports_of generation nfc_capable =
    if nfc_capable then bit_or (usb_port generation) port_nfc else usb_port generation

unfoldable pub detect_nitrokey_model : TextSearch → List ℕ → Version → DeviceModel
unfolding is_nitrokey3_reader detect_usb_variant has_nfc generate_model_string ports_of
detect_nitrokey_model search reader_name firmware =
    let generation = detect_usb_variant firmware in
    let nfc_capable = has_nfc firmware generation in
    let capabilities : ℕ = bit_or (bit_or (bit_or 0x01 0x02) 0x04) 0x08 in
    if not (is_nitrokey3_reader search reader_name)
    then record {
      brand = unknown_brand;
      model_code = 0;
      model_string = codes "Unknown Device";
      form_factor = 0;
      capabilities = [];
    }
    else record {
      brand = nitrokey;
      model_code =
          generation_code generation * 2 ^ 24
          + ports_of generation nfc_capable * 2 ^ 8
          + capabilities;
      model_string = generate_model_string generation nfc_capable;
      form_factor = 0;
      capabilities = get_capabilities;
    }
