-- ===== src/Listing.antt =====
-- The parsers of credential lists: parseCredentialList (src/daemon/oath/oath_protocol.cpp),
-- parseCredentialListV1 (nitrokey_secrets_oath_protocol.cpp) and YubiKey's parseCalculateAllResponse
-- (yk_oath_protocol.cpp), with the time in seconds as an argument.
pub mod Names
pub mod Calculated
use yubikey_oath_krunner.Prelude.{
  ℕ, zero, suc, ◌+◌, ◌-◌, ◌/◌, ◌%◌, Bool, true, false, List, [], ◌∷◌, ◌++◌, none, some, ltb, leb,
  ◌==◌, ◌&&◌, not, if◌then◌else◌, length, get_or, take, drop,
}
use yubikey_oath_krunner.Prelude.Text.{Qt}
use yubikey_oath_krunner.Tlv.{next_tlv, for_each_tlv}
use yubikey_oath_krunner.Status.{get_status_word, is_success, payload}
use yubikey_oath_krunner.Credential.{OathCredential, new_credential, hotp, totp}
use yubikey_oath_krunner.CredentialId.{parse_credential_id}
use yubikey_oath_krunner.Command.{tag_name, tag_name_list, tag_totp_response, tag_hotp, tag_touch}
use yubikey_oath_krunner.Code.{Formatted, text, division_by_zero, format_code}

-- The end of both list bodies: the name and what `parseCredentialId` finds in it.
unfoldable pub with_name : List ℕ → OathCredential → OathCredential
with_name name cred =
    let p = parse_credential_id name cred.is_totp in
    record cred { original_name = name; period = p.period; issuer = p.issuer; account = p.account }

-- LIST: the first byte holds the type in its lower and the algorithm in its upper four bits.
unfoldable pub list_credential : Qt → List ℕ → OathCredential
unfolding with_name
list_credential qt name_data =
    let name_algo = get_or name_data 0 0 in
    let type = name_algo % 16 in
    with_name (qt.from_utf8 (drop 1 name_data)) (record new_credential {
      type = type;
      is_totp = type == totp;
      algorithm = name_algo / 16 % 16;
    })

unfoldable pub list_body : Qt → ℕ → List ℕ → List OathCredential → List OathCredential
list_body qt tag value credentials =
    if tag == tag_name_list && leb 2 (length value)
    then credentials ++ list_credential qt value ∷ []
    else credentials

unfoldable pub parse_credential_list : Qt → List ℕ → List OathCredential
parse_credential_list qt response =
    let d = payload response in
    if ltb (length response) 2
    then []
    else if not (is_success (get_status_word response))
    then []
    else for_each_tlv (length d) (list_body qt) d []

-- LIST v1: the type stands in the upper and the algorithm in the lower four bits of the first byte,
-- and the last byte holds the properties.
unfoldable pub list_v1_credential : Qt → List ℕ → OathCredential
unfolding with_name
list_v1_credential qt name_data =
    let name_algo = get_or name_data 0 0 in
    let properties = get_or name_data (length name_data - 1) 0 in
    let type : ℕ = if name_algo / 16 == 2 then totp else hotp in
    with_name (qt.from_utf8 (take (length name_data - 2) (drop 1 name_data)))
      (record new_credential {
        type = type;
        is_totp = type == totp;
        algorithm = name_algo % 16;
        requires_touch = not (properties % 2 == 0);
      })

unfoldable pub list_v1_body : Qt → ℕ → List ℕ → List OathCredential → List OathCredential
list_v1_body qt tag value credentials =
    if tag == tag_name_list && leb 3 (length value)
    then credentials ++ list_v1_credential qt value ∷ []
    else credentials

unfoldable pub parse_credential_list_v1 : Qt → List ℕ → List OathCredential
parse_credential_list_v1 qt response =
    let d = payload response in
    if ltb (length response) 2
    then []
    else if not (is_success (get_status_word response))
    then []
    else for_each_tlv (length d) (list_v1_body qt) d []

-- Nitrokey's parseCalculateAllResponse returns the empty list.
unfoldable pub nitrokey_parse_calculate_all_response : List ℕ → List OathCredential
nitrokey_parse_calculate_all_response response = []

-- A parsed list, or the fault of a division by zero.
pub data Outcome : Type 0 where
  credentials : List OathCredential → Outcome
  faulted : Outcome

pub data Updated : Type 0 where
  updated : OathCredential → Updated
  update_faulted : Updated

-- `isTotp` is true when the name is parsed.
unfoldable pub named_credential : Qt → List ℕ → OathCredential
unfolding with_name
named_credential qt name_bytes = with_name (qt.from_utf8 name_bytes) new_credential

-- A code with its validity. The remainder by the period is a fault where that is zero.
unfoldable pub set_code : ℕ → ℕ → Formatted → OathCredential → Updated
set_code now digits division_by_zero cred = update_faulted
set_code now digits (text code) cred =
    if cred.period == 0
    then update_faulted
    else updated (record cred {
      code = code;
      digits = digits;
      type = totp;
      valid_until = now + (cred.period - now % cred.period);
    })

-- What the record behind a name does to the credential.
unfoldable pub apply_response : Qt → ℕ → ℕ → List ℕ → OathCredential → Updated
unfolding set_code
apply_response qt now tag value cred =
    if tag == tag_touch
    then updated (record cred { requires_touch = true })
    else if tag == tag_hotp
    then updated (record cred {
      is_totp = false;
      type = hotp;
      period = (parse_credential_id cred.original_name false).period;
    })
    else if tag == tag_totp_response && leb 5 (length value)
    then (let digits = get_or value 0 0 in set_code now digits (format_code qt value digits) cred)
    else updated cred

-- The loop. A name is followed by a second record; where that is missing or cut short, the loop ends
-- with the name's credential in the list.
unfoldable pub calculate_all_loop : Qt → ℕ → ℕ → List ℕ → List OathCredential → Outcome
calculate_all_loop qt now zero data' found = credentials found
calculate_all_loop qt now (suc fuel) data' found = elim (next_tlv data') [
  | none ↦ credentials found
  | some (tag, value, rest) ↦
      let skip = calculate_all_loop qt now fuel rest found in
      let named : Outcome = elim (next_tlv rest) [
        | none ↦ credentials (found ++ named_credential qt value ∷ [])
        | some (resp_tag, resp_value, rest') ↦
            elim (apply_response qt now resp_tag resp_value (named_credential qt value)) [
              | update_faulted ↦ faulted
              | updated cred ↦ calculate_all_loop qt now fuel rest' (found ++ cred ∷ [])
            ]
      ] in
      if tag == tag_name then named else skip
]

unfoldable pub yk_parse_calculate_all_response : Qt → ℕ → List ℕ → Outcome
yk_parse_calculate_all_response qt now response =
    let d = payload response in
    if ltb (length response) 2
    then credentials []
    else if not (is_success (get_status_word response))
    then credentials []
    else calculate_all_loop qt now (length d) d []
