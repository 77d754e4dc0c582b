-- ===== src/Examples/Uris.antt =====
-- Examples of otpauth URIs.
use yubikey_oath_krunner.Prelude.{
  ℕ, ◌≡◌, refl, inl, inr, true, false, List, some, map, leb, ◌+◌, ◌&&◌, not, is_empty,
  if◌then◌else◌, list_eq,
}
use yubikey_oath_krunner.Prelude.Int.{pos}
use yubikey_oath_krunner.Prelude.Digits.{decimal_value}
use yubikey_oath_krunner.Prelude.Text.{codes}
use yubikey_oath_krunner.Credential.{
  OathCredentialData, totp, sha256, validate, contains, all_base32,
}
use yubikey_oath_krunner.Otpauth.{Url, UrlText, success, split_colon, parse}
use yubikey_oath_krunner.Otpauth.Sound.{Accepted, parse-Accepted}
use yubikey_oath_krunner.Otpauth.Written.{parse-written}
use yubikey_oath_krunner.Examples.Data.{ascii}

abbrev ascii_lower : ℕ → ℕ
ascii_lower c = if leb b'A' c && leb c b'Z' then c + 32 else c

abbrev plain : UrlText
plain = record {
  qt = ascii;
  from_percent_encoding = λ t. t;
  to_lower = λ t. map ascii_lower t;
  to_int = λ t. some (pos (decimal_value 0 t));
  to_uint = λ t. some (decimal_value 0 t);
}

-- otpauth://TOTP/foo:bar?secret=MZXW6&digits=8&algorithm=sha256&period=60
abbrev item : List ℕ → List ℕ
item key =
    if list_eq key (codes "secret")
    then codes "MZXW6"
    else if list_eq key (codes "digits")
    then codes "8"
    else if list_eq key (codes "algorithm")
    then codes "sha256"
    else if list_eq key (codes "period")
    then codes "60"
    else codes ""

abbrev uri : Url
uri = record {
  valid_url = true;
  scheme = codes "otpauth";
  host = codes "TOTP";
  path = codes "/foo:bar";
  has_query_item = λ key. not (is_empty (item key));
  query_item_value = item;
}

abbrev read : OathCredentialData
read = record {
  name = codes "foo:bar";
  issuer = codes "foo";
  account = codes "bar";
  secret = codes "MZXW6";
  type = totp;
  algorithm = sha256;
  digits = pos 8;
  period = pos 60;
  counter = 0;
  require_touch = false;
}

parse-uri : parse plain uri ≡ success read
unfolding parse list_eq validate contains all_base32 split_colon
parse-uri = refl

parse-Accepted_example : Accepted plain uri read
parse-Accepted_example = parse-Accepted plain uri read parse-uri

parse-written_example : parse plain uri ≡ success read
unfolding validate contains all_base32 list_eq
parse-written_example =
    parse-written plain uri (codes "foo") (codes "bar") (codes "MZXW6") sha256 (pos 8) (pos 60) refl
      (inr (inl refl)) refl (refl, (refl, (refl, tt))) refl refl refl refl (inl refl) refl refl refl
      refl refl refl refl
