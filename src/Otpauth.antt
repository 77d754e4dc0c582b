-- ===== src/Otpauth.antt =====
-- src/daemon/utils/otpauth_uri_parser.cpp: a credential from an otpauth:// URI. What QUrl and
-- QUrlQuery read from the URI is a parameter.
pub mod Sound
pub mod Written
use yubikey_oath_krunner.Prelude.{
  ℕ, Bool, true, false, List, [], ◌∷◌, ◌++◌, Option, none, some, not, ◌==◌, ◌&&◌, ◌||◌, is_empty,
  if◌then◌else◌, list_eq,
}
use yubikey_oath_krunner.Prelude.Int.{ℤ, pos, lt_const, gt_const, le_const}
use yubikey_oath_krunner.Prelude.Text.{Qt, codes}
use yubikey_oath_krunner.Credential.{
  OathCredentialData, Invalid, valid, invalid, validate, hotp, totp, sha1, sha256, sha512,
}

-- `QUrl(uri)` with its accessors, and `QUrlQuery(url)`: whether a key is there, and its value.
pub record Url : Type 0 where
  pub valid_url : Bool
  pub scheme : List ℕ
  pub host : List ℕ
  pub path : List ℕ
  pub has_query_item : List ℕ → Bool
  pub query_item_value : List ℕ → List ℕ

-- `QUrl::fromPercentEncoding`, `QString::toLower`, `toInt(&ok)` and `toUInt(&ok)`.
pub record UrlText : Type 0 where
  pub qt : Qt
  pub from_percent_encoding : List ℕ → List ℕ
  pub to_lower : List ℕ → List ℕ
  pub to_int : List ℕ → Option ℤ
  pub to_uint : List ℕ → Option ℕ

-- The messages, in the order of the code.
pub data UriError : Type 0 where
  invalid_format wrong_scheme wrong_type label_required : UriError
  no_secret wrong_algorithm wrong_digits wrong_period counter_required wrong_counter : UriError
  not_valid : Invalid → UriError

pub data UriResult (A : Type 0) : Type 0 where
  success : A → UriResult A
  error : UriError → UriResult A

infixl 5 ◌>>=◌
abbrev pub ◌>>=◌ : {A B : Type 0} → UriResult A → (A → UriResult B) → UriResult B
success a >>= f = f a
error e >>= f = error e

-- `left` and `mid` around the first colon.
unfoldable pub split_colon : List ℕ → Option (List ℕ × List ℕ)
split_colon [] = none
split_colon (c ∷ cs) =
    let rest = split_colon cs in
    if c == b':'
    then some ([], cs)
    else elim rest [ none ↦ none | some (front, back) ↦ some (c ∷ front, back) ]

abbrev pub without_slash : List ℕ → List ℕ
without_slash [] = []
without_slash (c ∷ cs) = if c == b'/' then cs else c ∷ cs

module _ (t : UrlText) (url : Url) where
  abbrev pub value : List ℕ → List ℕ
  value key = url.query_item_value key

  unfoldable pub read_type : UriResult ℕ
  read_type =
      let host = t.to_lower (url.host) in
      if not (url.valid_url)
      then error invalid_format
      else if not (list_eq (t.to_lower (url.scheme)) (codes "otpauth"))
      then error wrong_scheme
      else if list_eq host (codes "totp")
      then success totp
      else if list_eq host (codes "hotp")
      then success hotp
      else error wrong_type

  unfoldable pub read_label : UriResult (List ℕ)
  read_label =
      let label = t.from_percent_encoding (t.qt.to_utf8 (without_slash (url.path))) in
      if is_empty label then error label_required else success label

  unfoldable pub read_secret : UriResult (List ℕ)
  read_secret =
      let secret = value (codes "secret") in
      if is_empty secret then error no_secret else success secret

  -- The issuer and the account of the label, then the issuer of the query.
  unfoldable pub issuer_account : List ℕ → List ℕ × List ℕ
  unfolding split_colon
  issuer_account label =
      let parts : List ℕ × List ℕ = elim (split_colon label) [
        | none ↦ (label, label)
        | some p ↦ p
      ] in
      let (issuer, account) = parts in
      let given = value (codes "issuer") in
      if url.has_query_item (codes "issuer") && not (is_empty given)
      then (given, account)
      else (issuer, account)

  unfoldable pub read_algorithm : UriResult ℕ
  read_algorithm =
      let algo = t.qt.to_upper (value (codes "algorithm")) in
      if url.has_query_item (codes "algorithm")
      then (if list_eq algo (codes "SHA1")
          then success sha1
          else if list_eq algo (codes "SHA256")
          then success sha256
          else if list_eq algo (codes "SHA512")
          then success sha512
          else error wrong_algorithm)
      else success sha1

  unfoldable pub read_digits : UriResult ℤ
  read_digits =
      if url.has_query_item (codes "digits")
      then elim (t.to_int (value (codes "digits"))) [
        | none ↦ error wrong_digits
        | some digits ↦
            if lt_const digits 6 || gt_const digits 8 then error wrong_digits else success digits
      ]
      else success (pos 6)

  -- The period is read for TOTP only; otherwise the data keep their initial 30.
  unfoldable pub read_period : ℕ → UriResult ℤ
  read_period type =
      if type == totp && url.has_query_item (codes "period")
      then elim (t.to_int (value (codes "period"))) [
        | none ↦ error wrong_period
        | some period ↦ if le_const period 0 then error wrong_period else success period
      ]
      else success (pos 30)

  -- The counter is read for HOTP only; otherwise the data keep their initial 0.
  unfoldable pub read_counter : ℕ → UriResult ℕ
  read_counter type =
      if type == hotp
      then (if not (url.has_query_item (codes "counter"))
          then error counter_required
          else elim (t.to_uint (value (codes "counter"))) [
            | none ↦ error wrong_counter
            | some counter ↦ success counter
          ])
      else success 0

  unfoldable pub checked : OathCredentialData → UriResult OathCredentialData
  unfolding validate
  checked d = elim (validate (t.qt) d) [ valid ↦ success d | invalid e ↦ error (not_valid e) ]

  abbrev pub credential : ℕ → List ℕ → List ℕ → ℕ → ℤ → ℤ → ℕ → OathCredentialData
  credential type label secret algorithm digits period counter =
      let (issuer, account) = issuer_account label in
      record {
        name = if is_empty issuer then account else issuer ++ codes ":" ++ account;
        issuer = issuer;
        account = account;
        secret = secret;
        type = type;
        algorithm = algorithm;
        digits = digits;
        period = period;
        counter = counter;
        require_touch = false;
      }

  unfoldable pub parse : UriResult OathCredentialData
  unfolding read_type read_label read_secret read_algorithm read_digits read_period read_counter
      checked issuer_account
  parse = do
    type ← read_type
    label ← read_label
    secret ← read_secret
    algorithm ← read_algorithm
    digits ← read_digits
    period ← read_period type
    counter ← read_counter type
    checked (credential type label secret algorithm digits period counter)
