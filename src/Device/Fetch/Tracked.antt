-- ===== src/Device/Fetch/Tracked.antt =====
-- What holds of a device whatever its threads do.
use yubikey_oath_krunner.Prelude.{ℕ, ◌≡◌, ◌≢◌, ◌⊎◌, is_empty, false, List, [], some, arith}
use yubikey_oath_krunner.Prelude.Text.{Qt}
use yubikey_oath_krunner.Credential.{OathCredentialData}
use yubikey_oath_krunner.Session.{Env}
use yubikey_oath_krunner.Device.{Pcsc, SessionClass, Device, DeviceWorld, D, error_state}
use yubikey_oath_krunner.Device.Operations
use yubikey_oath_krunner.Device.Fetch.{fetch_credentials_sync}

-- While the flag is set, an update runs; no error state is entered.
pub record IsTracked (d : Device) : Type 0 where
  pub flag : (d.update_in_progress ≡ false) ⊎ (is_empty d.updates ≡ false)
  pub no_error : d.state ≢ error_state
  pub no_message : d.last_error ≡ []

-- An operation leads from a tracked device to a tracked one.
abbrev pub Keeps : {W A : Type 0} → D W A → Type 0
Keeps {W} {A} m =
    (s t : DeviceWorld W) (a : A) → m s ≡ some (a, t) → IsTracked s.device → IsTracked t.device

pub update_credential_cache_async-IsTracked :
    (password : List ℕ) (d : Device)
    → IsTracked d
    → IsTracked (Operations.update_credential_cache_async password d)
unfolding Operations.update_credential_cache_async
update_credential_cache_async-IsTracked password d i = ground (arith, i)

pub begin_update-IsTracked :
    (password : List ℕ) (d : Device) → IsTracked d → IsTracked (Operations.begin_update password d)
unfolding Operations.begin_update
begin_update-IsTracked password d i = ground (arith, i)

pub set_password-IsTracked :
    (password : List ℕ) (d : Device) → IsTracked d → IsTracked (Operations.set_password password d)
unfolding Operations.set_password
set_password-IsTracked password d i = ground (arith, i)

module _ (env : Env) (pcsc : Pcsc (env.W)) (class : SessionClass (env.W)) (qt : Qt) (fuel : ℕ) where
  open env use {W}

  pub Keeps-generate_code :
      (name : List ℕ) → Keeps (Operations.generate_code env pcsc class qt fuel name)
  unfolding Operations.generate_code
  Keeps-generate_code name s t a h i = ground (arith, h, i)

  pub Keeps-authenticate_with_password :
      (password : List ℕ)
      → Keeps (Operations.authenticate_with_password env pcsc class qt fuel password)
  unfolding Operations.authenticate_with_password
  Keeps-authenticate_with_password password s t a h i = ground (arith, h, i)

  pub Keeps-add_credential :
      (d : OathCredentialData) → Keeps (Operations.add_credential env pcsc class qt fuel d)
  unfolding Operations.add_credential
  Keeps-add_credential d s t a h i = ground (arith, h, i)

  pub Keeps-delete_credential_named :
      (name : List ℕ) → Keeps (Operations.delete_credential_named env pcsc class qt fuel name)
  unfolding Operations.delete_credential_named
  Keeps-delete_credential_named name s t a h i = ground (arith, h, i)

  pub Keeps-change_password :
      (old new : List ℕ) → Keeps (Operations.change_password env pcsc class qt fuel old new)
  unfolding Operations.change_password
  Keeps-change_password old new s t a h i = ground (arith, h, i)

  pub Keeps-cancel_pending_operation :
      Keeps (Operations.cancel_pending_operation env pcsc class qt fuel)
  unfolding Operations.cancel_pending_operation
  Keeps-cancel_pending_operation s t a h i = ground (arith, h, i)

  pub Keeps-fetch_credentials_sync :
      (password : List ℕ) → Keeps (fetch_credentials_sync env pcsc class qt fuel password)
  unfolding fetch_credentials_sync
  Keeps-fetch_credentials_sync password s t a h i = ground (arith, h, i)
