-- ===== src/Credential/Display.antt =====
-- src/shared/types/oath_credential.cpp: how a credential is shown, and when its code is old. The
-- options are those of src/shared/formatting/credential_formatter.h.
use yubikey_oath_krunner.Prelude.{
  ℕ, ◌≡◌, ◌-◌, Bool, true, false, List, [], ◌∷◌, ◌++◌, ◌&&◌, ◌||◌, not, ltb, leb, refl, arith,
  is_empty, ◌⊎◌, if◌then◌else◌,
}
use yubikey_oath_krunner.Prelude.Text.{codes}
use yubikey_oath_krunner.Credential.{OathCredential}

pub record FormatOptions : Type 0 where
  pub show_username : Bool
  pub show_code : Bool
  pub show_device_name : Bool
  pub device_name : List ℕ
  pub connected_device_count : ℕ
  pub show_device_only_when_multiple : Bool

abbrev issuer_or_account : OathCredential → List ℕ
issuer_or_account cred = if is_empty cred.issuer then cred.account else cred.issuer

abbrev with_username : FormatOptions → OathCredential → List ℕ → List ℕ
with_username o cred shown =
    if o.show_username && not (is_empty cred.account)
    then shown ++ (codes " (" ++ (cred.account ++ codes ")"))
    else shown

abbrev with_device_name : FormatOptions → List ℕ → List ℕ
with_device_name o shown =
    if o.show_device_name
      && (not (is_empty o.device_name)
          && (not o.show_device_only_when_multiple || ltb 1 o.connected_device_count))
    then shown ++ (codes " @ " ++ o.device_name)
    else shown

unfoldable pub get_display_name : FormatOptions → OathCredential → List ℕ
get_display_name o cred =
    let named = with_username o cred (issuer_or_account cred) in
    with_device_name o (
      if o.show_code && (not cred.requires_touch && not (is_empty cred.code))
      then named ++ (codes " - " ++ cred.code)
      else named)

-- A space and U+1F446, in two code units.
abbrev pub touch_mark : List ℕ
touch_mark = 0x20 ∷ 0xd83d ∷ 0xdc46 ∷ []

unfoldable pub get_display_name_with_code : List ℕ → Bool → FormatOptions → OathCredential → List ℕ
get_display_name_with_code code requires_touch o cred =
    let named = with_username o cred (issuer_or_account cred) in
    with_device_name o (
      if not o.show_code
      then named
      else if requires_touch
      then named ++ touch_mark
      else if not (is_empty code)
      then named ++ (codes " - " ++ code)
      else named)

unfoldable pub is_expired : ℕ → OathCredential → Bool
is_expired now cred =
    if not cred.is_totp then false else ltb 0 cred.valid_until && leb cred.valid_until now

-- A time before now leaves a difference below zero, which is below every threshold.
unfoldable pub needs_regeneration : ℕ → ℕ → OathCredential → Bool
needs_regeneration now threshold cred =
    if not cred.is_totp
    then false
    else ltb 0 cred.valid_until && leb (cred.valid_until - now) threshold

-- Two credentials that differ in their codes only, and need a touch, are shown the same; a code that
-- is given with a touch is not shown either. An expired code always needs regeneration.
pub get_display_name-touch :
    (o : FormatOptions) (cred : OathCredential) (a b : List ℕ) (now threshold : ℕ)
    → (get_display_name o (record cred { requires_touch = true; code = a })
        ≡ get_display_name o (record cred { requires_touch = true; code = b }))
      × (get_display_name_with_code a true o cred ≡ get_display_name_with_code b true o cred)
      × ((is_expired now cred ≡ false) ⊎ (needs_regeneration now threshold cred ≡ true))
unfolding get_display_name get_display_name_with_code is_expired needs_regeneration
get_display_name-touch o cred a b now threshold = (ground arith, refl, ground arith)
