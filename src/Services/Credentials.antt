-- ===== src/Services/Credentials.antt =====
-- The credentials that clients see: getCredentials of src/daemon/services/credential_service.cpp,
-- src/daemon/cache/credential_cache_searcher.cpp, src/shared/utils/credential_finder.cpp and
-- src/daemon/formatting/code_validator.cpp. `enabled` is the setting enableCredentialsCache.
pub mod Found
use yubikey_oath_krunner.Prelude.{
  ℕ, Bool, true, false, List, [], ◌∷◌, ◌++◌, Option, none, some, ◌+◌, ◌-◌, ◌%◌, ◌&&◌, not, is_empty,
  list_eq, if◌then◌else◌,
}
use yubikey_oath_krunner.Credential.{OathCredential}
use yubikey_oath_krunner.Manager.{Manager, has_device, get_device, get_credentials}
use yubikey_oath_krunner.Storage.{Database, DeviceRow, get_cached_credentials, get_all_devices}

-- `OathCredential::matches` and `findCredential`.
unfoldable pub matches : OathCredential → List ℕ → List ℕ → Bool
unfolding list_eq
matches cred name target_device_id =
    list_eq cred.original_name name && list_eq cred.device_id target_device_id

unfoldable pub find_credential : List OathCredential → List ℕ → List ℕ → Option OathCredential
unfolding matches
find_credential [] name device_id = none
find_credential (cred ∷ creds) name device_id =
    if matches cred name device_id then some cred else find_credential creds name device_id

-- Whether a credential has the name.
unfoldable pub has_original : List ℕ → List OathCredential → Bool
unfolding list_eq
has_original name [] = false
has_original name (cred ∷ creds) =
    if list_eq cred.original_name name then true else has_original name creds

module _ (trimmed : List ℕ → List ℕ) (enabled : Bool) (m : Manager) (db : Database) where
  -- A device that is connected adds nothing, unless nothing is in the list yet.
  unfoldable pub append_cached_credentials_for_offline_device :
      List ℕ → List OathCredential → List OathCredential
  append_cached_credentials_for_offline_device device_id credentials =
      if not enabled
      then credentials
      else if has_device device_id m && not (is_empty credentials)
      then credentials
      else credentials ++ get_cached_credentials trimmed device_id db

  unfoldable pub append_each : List (List ℕ × DeviceRow) → List OathCredential → List OathCredential
  unfolding append_cached_credentials_for_offline_device
  append_each [] credentials = credentials
  append_each ((id, row) ∷ rows) credentials =
      append_each rows (append_cached_credentials_for_offline_device id credentials)

  unfoldable pub get_service_credentials : List ℕ → List OathCredential
  unfolding append_each append_cached_credentials_for_offline_device
  get_service_credentials device_id =
      if is_empty device_id
      then append_each (get_all_devices db) (get_credentials m)
      else (elim (get_device device_id m) [
        | none ↦ append_cached_credentials_for_offline_device device_id []
        | some d ↦
            if is_empty d.credentials
            then append_cached_credentials_for_offline_device device_id d.credentials
            else d.credentials
      ])

  -- The first device of the table that is not connected and has the credential.
  unfoldable pub search_offline : List ℕ → List (List ℕ × DeviceRow) → Option (List ℕ)
  unfolding has_original
  search_offline name [] = none
  search_offline name ((id, row) ∷ rows) =
      if has_device id m
      then search_offline name rows
      else if has_original name (get_cached_credentials trimmed id db)
      then some id
      else search_offline name rows

  unfoldable pub find_cached_credential_device : List ℕ → List ℕ → Option (List ℕ)
  unfolding search_offline has_original
  find_cached_credential_device name device_id_hint =
      if not enabled
      then none
      else if not (is_empty device_id_hint)
      then (if not (has_device device_id_hint m)
            && has_original name (get_cached_credentials trimmed device_id_hint db)
          then some device_id_hint
          else none)
      else search_offline name (get_all_devices db)

-- The seconds that are left of the 30 seconds in which the time lies, and their end.
unfoldable pub calculate_code_validity : ℕ → ℕ
calculate_code_validity now = 30 - now % 30

unfoldable pub calculate_expiration_time : ℕ → ℕ
unfolding calculate_code_validity
calculate_expiration_time now = now + calculate_code_validity now
