-- ===== src/Examples/Models.antt =====
-- Examples of Nitrokey detection.
use yubikey_oath_krunner.Prelude.{
  ℕ, ◌≡◌, refl, true, false, Bool, List, [], ◌∷◌, ◌==◌, ◌&&◌, ◌||◌, map, if◌then◌else◌, arith,
}
use yubikey_oath_krunner.Prelude.Text.{codes}
use yubikey_oath_krunner.Version.{Version}
use yubikey_oath_krunner.NitrokeyModel.{TextSearch, is_nitrokey3_reader}
use yubikey_oath_krunner.Examples.Data.{ascii_upper}

unfoldable pub starts_with : List ℕ → List ℕ → Bool
starts_with text [] = true
starts_with [] (k ∷ ks) = false
starts_with (c ∷ cs) (k ∷ ks) = c == k && starts_with cs ks

unfoldable pub holds : List ℕ → List ℕ → Bool
unfolding starts_with
holds [] key = starts_with [] key
holds (c ∷ cs) key = starts_with (c ∷ cs) key || holds cs key

abbrev pub search : TextSearch
search = record {
  contains = λ sensitive text key.
      if sensitive then holds text key else holds (map ascii_upper text) (map ascii_upper key);
}

abbrev reader : List ℕ
reader = codes "NITROKEY 3 CCID"

reader_found : is_nitrokey3_reader search reader ≡ true
unfolding is_nitrokey3_reader holds starts_with
reader_found = refl

abbrev nitrokey_1_5 : Version
nitrokey_1_5 = record { major = 1; minor = 5; patch = 2 }

starts-ci :
    (text : List ℕ) → starts_with text (codes "CCID") ≡ true → holds text (codes "CI") ≡ true
unfolding starts_with holds
starts-ci [] h = ground (arith, h)
starts-ci (c ∷ []) h = ground (arith, h)
starts-ci (c ∷ d ∷ []) h = ground (arith, h)
starts-ci (c ∷ d ∷ e ∷ rest) h = ground (arith, h)

holds-ci : (text : List ℕ) → holds text (codes "CCID") ≡ true → holds text (codes "CI") ≡ true
unfolding holds
holds-ci [] h = ground (arith, h, starts-ci [])
holds-ci (c ∷ cs) h = ground (arith, h, starts-ci (c ∷ cs), holds-ci cs)

abbrev line : List ℕ
line = codes "YubiKey 5A (5.4.3) [OTP+FIDO+CCID]"
