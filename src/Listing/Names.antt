-- ===== src/Listing/Names.antt =====
-- LIST and LIST v1.
use yubikey_oath_krunner.Prelude.{
  ℕ, ◌<◌, ◌≡◌, ◌⊎◌, sym, ◌∙◌, Bool, List, [], ◌∷◌, ◌++◌, append_assoc, append-nil, arith, leb, ◌==◌,
  ◌&&◌, if◌then◌else◌, length, All,
}
use yubikey_oath_krunner.Prelude.Text.{Qt}
use yubikey_oath_krunner.Tlv.{for_each_tlv}
use yubikey_oath_krunner.Tlv.Walk.{each, for_each_tlv-Tlvs}
use yubikey_oath_krunner.Tlv.RoundTrip.{Fits, encode, Tlvs-encode}
use yubikey_oath_krunner.Status.Laws.{successful, guards_pass}
use yubikey_oath_krunner.Credential.{OathCredential, hotp, totp}
use yubikey_oath_krunner.Command.{tag_name_list, algo_byte}
use yubikey_oath_krunner.Listing.{
  list_credential, list_body, parse_credential_list, list_v1_credential, list_v1_body,
  parse_credential_list_v1,
}

-- The credentials of the records that pass, in their order.
abbrev pub collect :
    (ℕ → List ℕ → Bool) → (List ℕ → OathCredential) → List (ℕ × List ℕ) → List OathCredential
collect p f [] = []
collect p f ((tag, value) ∷ rs) = if p tag value then f value ∷ collect p f rs else collect p f rs

each-collect :
    (p : ℕ → List ℕ → Bool) (f : List ℕ → OathCredential) (rs : List (ℕ × List ℕ))
    (found : List OathCredential)
    → each (λ tag value found. if p tag value then found ++ f value ∷ [] else found) found rs
      ≡ found ++ collect p f rs
each-collect p f [] found = sym (append-nil found)
each-collect p f ((tag, value) ∷ rs) found = ground (
  arith,
  each-collect p f rs (found ++ f value ∷ []),
  each-collect p f rs found,
  append_assoc found (f value ∷ []) (collect p f rs),
)

abbrev pub is_entry : ℕ → ℕ → List ℕ → Bool
is_entry least tag value = tag == tag_name_list && leb least (length value)

-- A successful LIST response of whole records gives one credential for each name record of two bytes
-- or more, and for no other record, in the response's order.
pub parse_credential_list-collect :
    (qt : Qt) (rs : List (ℕ × List ℕ))
    → All Fits rs
    → parse_credential_list qt (successful (encode rs))
      ≡ collect (is_entry 2) (list_credential qt) rs
unfolding parse_credential_list list_body
parse_credential_list-collect qt rs fits =
    guards_pass [] (λ d. for_each_tlv (length d) (list_body qt) d []) (encode rs)
    ∙ for_each_tlv-Tlvs (list_body qt) (length (encode rs)) [] (Tlvs-encode rs fits) (omega arith)
    ∙ each-collect (is_entry 2) (list_credential qt) rs []

-- A successful LIST v1 response of whole records gives one credential for each name record of three
-- bytes or more, and for no other record, in the response's order.
pub parse_credential_list_v1-collect :
    (qt : Qt) (rs : List (ℕ × List ℕ))
    → All Fits rs
    → parse_credential_list_v1 qt (successful (encode rs))
      ≡ collect (is_entry 3) (list_v1_credential qt) rs
unfolding parse_credential_list_v1 list_v1_body
parse_credential_list_v1-collect qt rs fits =
    guards_pass [] (λ d. for_each_tlv (length d) (list_v1_body qt) d []) (encode rs)
    ∙ for_each_tlv-Tlvs (list_v1_body qt) (length (encode rs)) [] (Tlvs-encode rs fits)
        (omega arith)
    ∙ each-collect (is_entry 3) (list_v1_credential qt) rs []

-- The parser of LIST v1 reads the byte in which PUT writes type and algorithm as the same type and
-- algorithm, for the two types of the program and an algorithm of four bits.
pub list_v1-algo_byte :
    (qt : Qt) (type algorithm properties : ℕ) (name : List ℕ)
    → (type ≡ hotp) ⊎ (type ≡ totp)
    → algorithm < 16
    → ((list_v1_credential qt (algo_byte type algorithm ∷ (name ++ properties ∷ []))).type ≡ type)
      × ((list_v1_credential qt (algo_byte type algorithm ∷ (name ++ properties ∷ []))).algorithm
          ≡ algorithm)
unfolding list_v1_credential algo_byte
list_v1-algo_byte qt type algorithm properties name t a = (ground arith, ground arith)

-- The parser of LIST reads the byte in which PUT writes type and algorithm, of four bits each, with
-- the two of them in each other's place.
pub list-algo_byte_swaps :
    (qt : Qt) (type algorithm : ℕ) (name : List ℕ)
    → type < 16
    → algorithm < 16
    → ((list_credential qt (algo_byte type algorithm ∷ name)).type ≡ algorithm)
      × ((list_credential qt (algo_byte type algorithm ∷ name)).algorithm ≡ type)
unfolding list_credential algo_byte
list-algo_byte_swaps qt type algorithm name t a = (ground arith, ground arith)
