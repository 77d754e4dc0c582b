-- ===== src/Otpauth/Sound.antt =====
-- What the URI parser accepts.
use yubikey_oath_krunner.Prelude.{ℕ, ◌≡◌, refl, ◌⊎◌, true, list_eq→eq, arith, subst}
use yubikey_oath_krunner.Prelude.Text.{codes}
use yubikey_oath_krunner.Credential.{
  OathCredentialData, valid, validate, full_name, hotp, totp, sha1, sha256, sha512,
}
use yubikey_oath_krunner.Otpauth.{
  Url, UrlText, UriResult, success, error, ◌>>=◌, read_type, read_label, read_secret,
  read_algorithm, read_digits, read_period, read_counter, checked, credential, parse,
}

-- A chain succeeds only where its first part does.
bind-success :
    {A B : Type 0} (m : UriResult A) (f : A → UriResult B) (b : B)
    → (m >>= f) ≡ success b
    → (a : A) × (m ≡ success a) × (f a ≡ success b)
bind-success (success a) f b h = (a, refl, h)
bind-success (error e) f b h = absurd (ground (arith, h))

module _ (t : UrlText) (url : Url) where
  -- The scheme and the type of an accepted URI.
  abbrev pub Names : ℕ → Type 0
  Names type =
      (t.to_lower (url.scheme) ≡ codes "otpauth")
      × (((type ≡ totp) × (t.to_lower (url.host) ≡ codes "totp"))
          ⊎ ((type ≡ hotp) × (t.to_lower (url.host) ≡ codes "hotp")))

  read_type-Names : (type : ℕ) → read_type t url ≡ success type → Names type
  unfolding read_type
  read_type-Names type h = ground (
    arith,
    h,
    list_eq→eq (t.to_lower (url.scheme)) (codes "otpauth"),
    list_eq→eq (t.to_lower (url.host)) (codes "totp"),
    list_eq→eq (t.to_lower (url.host)) (codes "hotp"),
  )

  read_algorithm-known :
      (algorithm : ℕ)
      → read_algorithm t url ≡ success algorithm
      → (algorithm ≡ sha1) ⊎ ((algorithm ≡ sha256) ⊎ (algorithm ≡ sha512))
  unfolding read_algorithm
  read_algorithm-known algorithm h = ground (arith, h)

  read_counter-given :
      (type counter : ℕ)
      → read_counter t url type ≡ success counter
      → type ≡ hotp
      → url.has_query_item (codes "counter") ≡ true
  unfolding read_counter
  read_counter-given type counter h e = ground (arith, h)

  checked-valid :
      (d d' : OathCredentialData)
      → checked t url d ≡ success d'
      → (validate (t.qt) d ≡ valid) × (d ≡ d')
  unfolding checked
  checked-valid d d' h = ground (arith, h)

  -- What an accepted URI and its credential have in common.
  abbrev pub Accepted : OathCredentialData → Type 0
  Accepted d =
      (validate (t.qt) d ≡ valid)
      × (d.name ≡ full_name d)
      × Names (d.type)
      × ((d.algorithm ≡ sha1) ⊎ ((d.algorithm ≡ sha256) ⊎ (d.algorithm ≡ sha512)))
      × (d.type ≡ hotp → url.has_query_item (codes "counter") ≡ true)

  -- A URI is accepted only if its scheme is otpauth and its host is the type of the credential, TOTP
  -- or HOTP, in any case. The credential is valid, its name is that of its issuer and account, its
  -- algorithm is one of the three, and a counter is given if it is HOTP.
  pub parse-Accepted : (d : OathCredentialData) → parse t url ≡ success d → Accepted d
  unfolding parse full_name
  parse-Accepted d h =
      let (type, type_read, h1) = bind-success (read_type t url) _ d h in
      let (label, label_read, h2) = bind-success (read_label t url) _ d h1 in
      let (secret, secret_read, h3) = bind-success (read_secret t url) _ d h2 in
      let (algorithm, algorithm_read, h4) = bind-success (read_algorithm t url) _ d h3 in
      let (digits, digits_read, h5) = bind-success (read_digits t url) _ d h4 in
      let (period, period_read, h6) = bind-success (read_period t url type) _ d h5 in
      let (counter, counter_read, h7) = bind-success (read_counter t url type) _ d h6 in
      let built : OathCredentialData =
        credential t url type label secret algorithm digits period counter in
      let (is_valid, same) = checked-valid built d h7 in
      subst Accepted same (
        is_valid,
        refl,
        read_type-Names type type_read,
        read_algorithm-known algorithm algorithm_read,
        read_counter-given type counter counter_read,
      )
