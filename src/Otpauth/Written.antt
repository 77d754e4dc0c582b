-- ===== src/Otpauth/Written.antt =====
-- The URIs that write a TOTP credential, as authenticator applications make them.
use yubikey_oath_krunner.Prelude.{
  ℕ, ◌≡◌, refl, ap, ◌∙◌, ◌⊎◌, inl, inr, true, false, List, [], ◌∷◌, ◌++◌, some, ◌==◌, ◌||◌,
  is_empty, if◌then◌else◌, list_eq, arith, All,
}
use yubikey_oath_krunner.Prelude.Int.{ℤ, lt_const, gt_const, le_const}
use yubikey_oath_krunner.Prelude.Text.{codes}
use yubikey_oath_krunner.Credential.{
  OathCredentialData, valid, validate, totp, sha1, sha256, sha512,
}
use yubikey_oath_krunner.Otpauth.{
  Url, UrlText, success, split_colon, without_slash, value, read_type, read_label, read_secret,
  read_algorithm, read_digits, read_period, checked, issuer_account, parse,
}

abbrev pub NotColon : ℕ → Type 0
NotColon c = (c == b':') ≡ false

split_colon-append :
    (front back : List ℕ)
    → All NotColon front
    → split_colon (front ++ codes ":" ++ back) ≡ some (front, back)
unfolding split_colon
split_colon-append [] back h = refl
split_colon-append (c ∷ cs) back (h, hs) = ground (arith, split_colon-append cs back hs, h)

-- A TOTP credential that is written with an issuer.
abbrev pub totp_data : List ℕ → List ℕ → List ℕ → ℕ → ℤ → ℤ → OathCredentialData
totp_data issuer account secret algorithm digits period = record {
  name = issuer ++ codes ":" ++ account;
  issuer = issuer;
  account = account;
  secret = secret;
  type = totp;
  algorithm = algorithm;
  digits = digits;
  period = period;
  counter = 0;
  require_touch = false;
}

abbrev pub algorithm_text : ℕ → List ℕ
algorithm_text algorithm =
    if algorithm == sha1
    then codes "SHA1"
    else if algorithm == sha256
    then codes "SHA256"
    else codes "SHA512"

abbrev pub IsAlgorithm : ℕ → Type 0
IsAlgorithm algorithm = (algorithm ≡ sha1) ⊎ ((algorithm ≡ sha256) ⊎ (algorithm ≡ sha512))

module _ (t : UrlText) (url : Url) where
  -- What the URI says about one parameter.
  abbrev pub Given : List ℕ → Type 0
  Given key = url.has_query_item key ≡ true

  read_type-totp :
      url.valid_url ≡ true
      → t.to_lower (url.scheme) ≡ codes "otpauth"
      → t.to_lower (url.host) ≡ codes "totp"
      → read_type t url ≡ success totp
  unfolding read_type list_eq
  read_type-totp v s h = rw (v, s, h) refl

  read_algorithm-text :
      (algorithm : ℕ)
      → IsAlgorithm algorithm
      → Given (codes "algorithm")
      → t.qt.to_upper (value t url (codes "algorithm")) ≡ algorithm_text algorithm
      → read_algorithm t url ≡ success algorithm
  unfolding read_algorithm list_eq
  read_algorithm-text algorithm (inl e) g h = rw (g, h ∙ ap algorithm_text e, e) refl
  read_algorithm-text algorithm (inr (inl e)) g h = rw (g, h ∙ ap algorithm_text e, e) refl
  read_algorithm-text algorithm (inr (inr e)) g h = rw (g, h ∙ ap algorithm_text e, e) refl

  read_digits-Given :
      (digits : ℤ)
      → Given (codes "digits")
      → t.to_int (value t url (codes "digits")) ≡ some digits
      → (lt_const digits 6 || gt_const digits 8) ≡ false
      → read_digits t url ≡ success digits
  unfolding read_digits
  read_digits-Given digits g h r = rw (g, h, r) refl

  read_period-Given :
      (period : ℤ)
      → Given (codes "period")
      → t.to_int (value t url (codes "period")) ≡ some period
      → le_const period 0 ≡ false
      → read_period t url totp ≡ success period
  unfolding read_period
  read_period-Given period g h r = rw (g, h, r) refl

  issuer_account-label :
      (issuer account : List ℕ)
      → All NotColon issuer
      → (url.has_query_item (codes "issuer") ≡ false) ⊎ (value t url (codes "issuer") ≡ issuer)
      → issuer_account t url (issuer ++ codes ":" ++ account) ≡ (issuer, account)
  unfolding issuer_account
  issuer_account-label issuer account h (inl e) = rw (split_colon-append issuer account h, e) refl
  issuer_account-label issuer account h (inr e) =
      ground (arith, split_colon-append issuer account h, e)

  read_label-given :
      (issuer account : List ℕ)
      → t.from_percent_encoding (t.qt.to_utf8 (without_slash (url.path)))
        ≡ issuer ++ codes ":" ++ account
      → read_label t url ≡ success (issuer ++ codes ":" ++ account)
  unfolding read_label
  read_label-given [] account h = rw h refl
  read_label-given (c ∷ cs) account h = rw h refl

  read_secret-given :
      (secret : List ℕ)
      → is_empty secret ≡ false
      → value t url (codes "secret") ≡ secret
      → read_secret t url ≡ success secret
  unfolding read_secret
  read_secret-given secret n h = rw (h, n) refl

  valid-parts :
      (issuer account secret : List ℕ) (algorithm : ℕ) (digits period : ℤ)
      → validate (t.qt) (totp_data issuer account secret algorithm digits period) ≡ valid
      → (is_empty secret ≡ false)
        × ((lt_const digits 6 || gt_const digits 8) ≡ false)
        × (le_const period 0 ≡ false)
  unfolding validate
  valid-parts issuer account secret algorithm digits period h =
      (ground (arith, h), ground (arith, h), ground (arith, h))

  checked-valid : (d : OathCredentialData) → validate (t.qt) d ≡ valid → checked t url d ≡ success d
  unfolding checked validate
  checked-valid d h = ground (arith, h)

  -- A valid TOTP credential with an issuer that has no colon is read back from every URI that writes
  -- it: the label is issuer:account, and secret, algorithm, digits and period are given. The URI may
  -- give the issuer again.
  pub parse-written :
      (issuer account secret : List ℕ) (algorithm : ℕ) (digits period : ℤ)
      → validate (t.qt) (totp_data issuer account secret algorithm digits period) ≡ valid
      → IsAlgorithm algorithm
      → is_empty issuer ≡ false
      → All NotColon issuer
      → url.valid_url ≡ true
      → t.to_lower (url.scheme) ≡ codes "otpauth"
      → t.to_lower (url.host) ≡ codes "totp"
      → t.from_percent_encoding (t.qt.to_utf8 (without_slash (url.path)))
        ≡ issuer ++ codes ":" ++ account
      → (url.has_query_item (codes "issuer") ≡ false) ⊎ (value t url (codes "issuer") ≡ issuer)
      → value t url (codes "secret") ≡ secret
      → Given (codes "algorithm")
      → t.qt.to_upper (value t url (codes "algorithm")) ≡ algorithm_text algorithm
      → Given (codes "digits")
      → t.to_int (value t url (codes "digits")) ≡ some digits
      → Given (codes "period")
      → t.to_int (value t url (codes "period")) ≡ some period
      → parse t url ≡ success (totp_data issuer account secret algorithm digits period)
  unfolding parse
  parse-written issuer account secret algorithm digits period ok alg named colonless v s h label
        again given_secret ga text gd number gp seconds =
      let (some_secret, in_range, positive) =
        valid-parts issuer account secret algorithm digits period ok in
      rw
        (
          read_type-totp v s h,
          read_label-given issuer account label,
          read_secret-given secret some_secret given_secret,
          read_algorithm-text algorithm alg ga text,
          read_digits-Given digits gd number in_range,
          read_period-Given period gp seconds positive,
          issuer_account-label issuer account colonless again,
          named,
        )
        (checked-valid (totp_data issuer account secret algorithm digits period) ok)
