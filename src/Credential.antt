-- ===== src/Credential.antt =====
-- src/shared/types/oath_credential_data.h and oath_credential.h. `enum class` values are kept as
-- their numbers, because the parsers cast any nibble into them.
pub mod Display
use yubikey_oath_krunner.Prelude.{
  ℕ, Bool, true, false, List, [], ◌∷◌, ◌++◌, ◌||◌, not, ◌==◌, is_empty, if◌then◌else◌,
}
use yubikey_oath_krunner.Prelude.Int.{ℤ, lt_const, gt_const, le_const}
use yubikey_oath_krunner.Prelude.Text.{codes, Qt}

-- OathType and OathAlgorithm.
abbrev pub hotp : ℕ
hotp = 1

abbrev pub totp : ℕ
totp = 2

abbrev pub sha1 : ℕ
sha1 = 1

abbrev pub sha256 : ℕ
sha256 = 2

abbrev pub sha512 : ℕ
sha512 = 3

pub record OathCredentialData : Type 0 where
  pub name : List ℕ
  pub issuer : List ℕ
  pub account : List ℕ
  pub secret : List ℕ
  pub type : ℕ
  pub algorithm : ℕ
  pub digits : ℤ
  pub period : ℤ
  pub counter : ℕ
  pub require_touch : Bool

pub data Invalid : Type 0 where
  name_required secret_required not_base32 bad_digits bad_period : Invalid

-- `validate` returns a message, or the empty text for valid data.
pub data Verdict : Type 0 where
  valid : Verdict
  invalid : Invalid → Verdict

unfoldable pub contains : List ℕ → ℕ → Bool
contains [] ch = false
contains (c ∷ cs) ch = c == ch || contains cs ch

abbrev pub base32_chars : List ℕ
base32_chars = codes "ABCDEFGHIJKLMNOPQRSTUVWXYZ234567="

unfoldable pub all_base32 : Qt → List ℕ → Bool
unfolding contains
all_base32 qt [] = true
all_base32 qt (ch ∷ rest) =
    if contains base32_chars (qt.char_to_upper ch) then all_base32 qt rest else false

unfoldable pub validate : Qt → OathCredentialData → Verdict
validate qt d =
    if is_empty d.name
    then invalid name_required
    else if is_empty d.secret
    then invalid secret_required
    else if not (all_base32 qt d.secret)
    then invalid not_base32
    else if lt_const d.digits 6 || gt_const d.digits 8
    then invalid bad_digits
    else if d.type == totp
    then (if le_const d.period 0 then invalid bad_period else valid)
    else valid

unfoldable pub full_name : OathCredentialData → List ℕ
full_name d = if is_empty d.issuer then d.account else d.issuer ++ codes ":" ++ d.account

-- OathCredential, with its default member values in `new_credential`.
pub record OathCredential : Type 0 where
  pub original_name : List ℕ
  pub issuer : List ℕ
  pub account : List ℕ
  pub code : List ℕ
  pub valid_until : ℕ
  pub requires_touch : Bool
  pub is_totp : Bool
  pub device_id : List ℕ
  pub digits : ℕ
  pub period : ℕ
  pub algorithm : ℕ
  pub type : ℕ

abbrev pub new_credential : OathCredential
new_credential = record {
  original_name = [];
  issuer = [];
  account = [];
  code = [];
  valid_until = 0;
  requires_touch = false;
  is_totp = true;
  device_id = [];
  digits = 6;
  period = 30;
  algorithm = sha1;
  type = totp;
}
