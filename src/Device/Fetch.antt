-- ===== src/Device/Fetch.antt =====
-- src/daemon/oath/oath_device.cpp: fetchCredentialsSync and the thread of updateCredentialCacheAsync.
pub mod Steps
pub mod Tracked
pub mod Reachable
use yubikey_oath_krunner.Prelude.{ℕ, Bool, true, false, List, [], ◌∷◌, if◌then◌else◌, is_empty}
use yubikey_oath_krunner.Prelude.Text.{Qt}
use yubikey_oath_krunner.Credential.{OathCredential}
use yubikey_oath_krunner.Session.{Env, Result, success, error}
use yubikey_oath_krunner.Device.{
  Pcsc, SessionClass, Device, D, pure, ◌>>=◌, ◌>>◌, get_device, modify, in_session,
  credential_cache_fetched, fetching_credentials, ready,
}
use yubikey_oath_krunner.Device.Lifecycle.{set_state, same_state}
use yubikey_oath_krunner.Device.Operations.{set_password, or_stored, with_transaction, authenticate}

-- An error of any kind gives an empty list.
abbrev pub or_empty_list : Result (List OathCredential) → List OathCredential
or_empty_list (success found) = found
or_empty_list (error e) = []

-- The thread after the fetch: the state, the cache, the flag and the signal. `Device.Fetch.Steps` takes
-- the thread off the list.
unfoldable pub finish_update : List OathCredential → Device → Device
unfolding set_state
finish_update found d =
    let shown = if same_state d.state fetching_credentials then set_state ready d else d in
    record shown {
      credentials = found;
      update_in_progress = false;
      signals = credential_cache_fetched found ∷ shown.signals;
    }

module _ (env : Env) (pcsc : Pcsc (env.W)) (class : SessionClass (env.W)) (qt : Qt) (fuel : ℕ) where
  open env use {W}

  -- Authentication with the password to use, which is stored if it is the right one.
  unfoldable pub authenticate_and_store : List ℕ → D W (Result (Unit {0}))
  unfolding authenticate set_password
  authenticate_and_store password = if is_empty password then pure (success tt) else (do
    authenticated ← authenticate env pcsc class qt fuel password
    elim authenticated [
      | error e ↦ pure (error e)
      | success _ ↦ (modify (set_password password) >> pure (success tt))
    ])

  unfoldable pub fetch_in_transaction : List ℕ → D W (Result (List OathCredential))
  unfolding with_transaction authenticate_and_store
  fetch_in_transaction password = with_transaction env pcsc class qt fuel false (do
    d ← get_device
    authenticated ← authenticate_and_store (or_stored password d.password)
    elim authenticated [ error e ↦ pure (error e) | success _ ↦ in_session (class.calculate_all) ])

  unfoldable pub fetch_credentials_sync : List ℕ → D W (List OathCredential)
  unfolding fetch_in_transaction
  fetch_credentials_sync password = do
    result ← fetch_in_transaction password
    pure (or_empty_list result)
