-- ===== src/Model/Ykman.antt =====
-- src/shared/types/yubikey_model.cpp: the model from the output of ykman. A search that does not
-- regard case is QString::contains, a parameter.
use yubikey_oath_krunner.Prelude.{
  ℕ, Bool, false, List, ◌+◌, ◌*◌, ◌^◌, bit_or, ◌==◌, ◌||◌, Option, none, some, is_empty,
  if◌then◌else◌,
}
use yubikey_oath_krunner.Prelude.Text.{codes}
use yubikey_oath_krunner.Version.{Version}
use yubikey_oath_krunner.NitrokeyModel.{TextSearch}
use yubikey_oath_krunner.Model.{usb_a, usb_c, lightning, nfc, detect_yubikey_model}
use yubikey_oath_krunner.Model.Texts.{
  yubikey5_series, yubikey5_fips_series, yubikey_bio_series, security_key_series, neo_series,
  yubikey4_series, yubikey4_fips_series, standard_variant, nano, dual_connector, enhanced_pin,
}

pub record YkmanParseResult : Type 0 where
  pub series : ℕ
  pub variant : ℕ
  pub ports : ℕ
  pub capabilities : ℕ

unfoldable pub default_capabilities : ℕ → ℕ
default_capabilities series =
    if series == yubikey5_series || series == yubikey5_fips_series
    then 0xff
    else if series == yubikey_bio_series || series == security_key_series
    then 0x03
    else 0xfe

module _ (search : TextSearch) (line : List ℕ) where
  abbrev pub shows : List ℕ → Bool
  shows text = search.contains false line text

  unfoldable pub ykman_series : Option ℕ
  ykman_series =
      if shows (codes "YubiKey 5")
      then some (if shows (codes "FIPS") then yubikey5_fips_series else yubikey5_series)
      else if shows (codes "YubiKey Bio")
      then some yubikey_bio_series
      else if shows (codes "Security Key")
      then some security_key_series
      else if shows (codes "YubiKey NEO")
      then some neo_series
      else if shows (codes "YubiKey 4")
      then some (if shows (codes "FIPS") then yubikey4_fips_series else yubikey4_series)
      else none

  unfoldable pub ykman_variant : ℕ
  ykman_variant =
      if shows (codes "Nano")
      then nano
      else if shows (codes "Ci") || shows (codes "5Ci")
      then dual_connector
      else if shows (codes "Enhanced PIN")
      then enhanced_pin
      else standard_variant

  unfoldable pub ykman_ports : ℕ
  ykman_ports =
      let wired : ℕ =
        if shows (codes "5Ci") || shows (codes "Ci")
        then bit_or usb_c lightning
        else if shows (codes "5C") || shows (codes "4C")
        then usb_c
        else usb_a in
      if shows (codes "NFC") then bit_or wired nfc else wired

  -- `parseYkmanOutput` of the trimmed line; `none` is a result that is not valid.
  unfoldable pub parse_ykman_output : Option YkmanParseResult
  unfolding ykman_series ykman_variant ykman_ports default_capabilities
  parse_ykman_output = elim ykman_series [
    | none ↦ none
    | some series ↦ some (record {
      series = series;
      variant = ykman_variant;
      ports = ykman_ports;
      capabilities = default_capabilities series;
    })
  ]

unfoldable pub create_model_of : YkmanParseResult → ℕ
create_model_of r = r.series * 2 ^ 24 + r.variant * 2 ^ 16 + r.ports * 2 ^ 8 + r.capabilities

-- `detectYubiKeyModel`: `trimmed` is QString::trimmed.
unfoldable pub detect_with_ykman : TextSearch → (List ℕ → List ℕ) → Version → List ℕ → ℕ → ℕ → ℕ
unfolding parse_ykman_output create_model_of
detect_with_ykman search trimmed firmware output form_factor nfc_supported =
    let fallback = detect_yubikey_model firmware form_factor nfc_supported in
    if is_empty output then fallback else elim (parse_ykman_output search (trimmed output)) [
      | none ↦ fallback
      | some r ↦ create_model_of r
    ]
