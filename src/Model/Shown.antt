-- ===== src/Model/Shown.antt =====
-- Model codes against what they were made of.
use yubikey_oath_krunner.Prelude.{
  ℕ, ◌≡◌, ◌<◌, refl, Bool, true, false, List, some, arith, if◌then◌else◌, ◌⊎◌,
}
use yubikey_oath_krunner.Prelude.Text.{codes}
use yubikey_oath_krunner.Version.{Version, ge}
use yubikey_oath_krunner.NitrokeyModel.{TextSearch, is_nitrokey3_reader, detect_nitrokey_model}
use yubikey_oath_krunner.NitrokeyModel.Release.{first_of, detect_nitrokey_model-ge}
use yubikey_oath_krunner.Model.Texts.{
  get_model_series, get_model_variant, get_model_ports, get_model_capabilities, dual_connector,
  device_model_to_string,
}
use yubikey_oath_krunner.Model.Ykman.{
  YkmanParseResult, shows, parse_ykman_output, create_model_of, ykman_series, ykman_variant,
  ykman_ports, default_capabilities,
}

-- The four bytes of a model code are read back from it.
pub create_model-parts :
    (r : YkmanParseResult)
    → r.series < 256
    → r.variant < 256
    → r.ports < 256
    → r.capabilities < 256
    → (get_model_series (create_model_of r) ≡ r.series)
      × (get_model_variant (create_model_of r) ≡ r.variant)
      × (get_model_ports (create_model_of r) ≡ r.ports)
      × (get_model_capabilities (create_model_of r) ≡ r.capabilities)
unfolding create_model_of get_model_series get_model_variant get_model_ports get_model_capabilities
create_model-parts r s v p c = (omega arith, omega arith, omega arith, omega arith)

-- A line of ykman that has a series and names the interface CCID, but not Nano, is taken for a key
-- with two connectors, because CCID contains the letters Ci in capitals.
pub parse_ykman_output-ccid :
    (search : TextSearch) (line : List ℕ) (series : ℕ)
    → ykman_series search line ≡ some series
    → (shows search line (codes "CCID") ≡ true)
    → ((text : List ℕ)
        → search.contains false text (codes "CCID") ≡ true
        → search.contains false text (codes "Ci") ≡ true)
    → shows search line (codes "Nano") ≡ false
    → (r : YkmanParseResult) × (parse_ykman_output search line ≡ some r)
      × (r.variant ≡ dual_connector)
      × ((r.ports ≡ 0x06) ⊎ (r.ports ≡ 0x0e))
unfolding parse_ykman_output
parse_ykman_output-ccid search line series known ccid parts full_size = (
  record {
    series = series;
    variant = ykman_variant search line;
    ports = ykman_ports search line;
    capabilities = default_capabilities series;
  },
  ground (arith, known),
  ground (arith, ccid, full_size, parts line),
  ground (arith, ccid, parts line),
)

shown-cases :
    (since_1_6 since_1_5 : Bool)
    → device_model_to_string
        (if since_1_6 then 0x02000a0f else if since_1_5 then 0x0100090f else 0x0100010f)
      ≡ (if since_1_6
          then (if since_1_6
              then codes "Nitrokey 3C NFC"
              else if since_1_5
              then codes "Nitrokey 3A NFC"
              else codes "Nitrokey 3A")
          else if since_1_5
          then codes "YubiKey 5 NFC"
          else codes "YubiKey 5")
unfolding device_model_to_string
shown-cases true since_1_5 = refl
shown-cases false true = refl
shown-cases false false = refl

-- Of the codes that the detection of a Nitrokey 3 with a firmware 1.x.y gives, deviceModelToString
-- knows those of a 3C NFC; a 3A is shown as a YubiKey 5.
pub device_model_to_string-nitrokey :
    (search : TextSearch) (reader_name : List ℕ) (firmware : Version)
    → is_nitrokey3_reader search reader_name ≡ true
    → firmware.major ≡ 1
    → device_model_to_string (detect_nitrokey_model search reader_name firmware).model_code ≡ (
        if ge firmware (first_of 1 6)
        then (detect_nitrokey_model search reader_name firmware).model_string
        else if ge firmware (first_of 1 5)
        then codes "YubiKey 5 NFC"
        else codes "YubiKey 5")
device_model_to_string-nitrokey search reader_name firmware h one =
    let (code, text) = detect_nitrokey_model-ge search reader_name firmware h one in
    rw (code, text) (shown-cases (ge firmware (first_of 1 6)) (ge firmware (first_of 1 5)))
