-- ===== src/Device/Fetch/Steps.antt =====
-- A device between the threads that change its state and start updates, and the threads of the updates,
-- of which there may be several: their steps in any order. An operation on the card is one step, by the card's mutex.
use yubikey_oath_krunner.Prelude.{ℕ, ◌≡◌, Bool, List, ◌∷◌, ◌++◌, some}
use yubikey_oath_krunner.Prelude.Text.{Qt}
use yubikey_oath_krunner.Credential.{OathCredentialData, OathCredential}
use yubikey_oath_krunner.Session.{Env, Result}
use yubikey_oath_krunner.Device.{
  Pcsc, SessionClass, Device, DeviceWorld, connecting, authenticating, Update, queued, fetched,
}
use yubikey_oath_krunner.Device.Lifecycle.{set_state}
use yubikey_oath_krunner.Device.Operations.{
  set_password, begin_update, update_credential_cache_async, on_card_reset_detected,
  on_reconnect_result, generate_code, authenticate_with_password, add_credential,
  delete_credential_named, change_password, cancel_pending_operation,
}
use yubikey_oath_krunner.Device.Fetch.{finish_update, fetch_credentials_sync}
use yubikey_oath_krunner.Device.Reconnect.{reconnect_card_handle}

abbrev pub with_updates : List Update → Device → Device
with_updates us d = record d { updates = us }

module _ (env : Env) (pcsc : Pcsc (env.W)) (class : SessionClass (env.W)) (qt : Qt) (fuel : ℕ) where
  open env use {W}

  abbrev pub on : (Device → Device) → DeviceWorld W → DeviceWorld W
  on f s = record s { device = f s.device }

  -- The calls of setState are those of the lifecycle service: connecting and authenticating.
  pub data Step : DeviceWorld W → DeviceWorld W → Type 0 where
    connect : (s : DeviceWorld W) → Step s (on (set_state connecting) s)
    await_password : (s : DeviceWorld W) → Step s (on (set_state authenticating) s)
    give_password : (s : DeviceWorld W) (password : List ℕ) → Step s (on (set_password password) s)
    start_update :
        (s : DeviceWorld W) (password : List ℕ)
        → Step s (on (update_credential_cache_async password) s)
    -- A thread that found the flag not set, some time before.
    start_late : (s : DeviceWorld W) (password : List ℕ) → Step s (on (begin_update password) s)
    fetch :
        (s t : DeviceWorld W) (before after : List Update) (password : List ℕ)
        (found : List OathCredential)
        → s.device.updates ≡ before ++ queued password ∷ after
        → fetch_credentials_sync env pcsc class qt fuel password s ≡ some (found, t)
        → Step s (on (with_updates (before ++ fetched found ∷ after)) t)
    finish :
        (s : DeviceWorld W) (before after : List Update) (found : List OathCredential)
        → s.device.updates ≡ before ++ fetched found ∷ after
        → Step s (on (λ d. with_updates (before ++ after) (finish_update found d)) s)
    code :
        (s t : DeviceWorld W) (name : List ℕ) (r : Result (List ℕ))
        → generate_code env pcsc class qt fuel name s ≡ some (r, t)
        → Step s t
    log_in :
        (s t : DeviceWorld W) (password : List ℕ) (r : Result (Unit {0}))
        → authenticate_with_password env pcsc class qt fuel password s ≡ some (r, t)
        → Step s t
    add :
        (s t : DeviceWorld W) (d : OathCredentialData) (r : Result (Unit {0}))
        → add_credential env pcsc class qt fuel d s ≡ some (r, t)
        → Step s t
    delete :
        (s t : DeviceWorld W) (name : List ℕ) (r : Result (Unit {0}))
        → delete_credential_named env pcsc class qt fuel name s ≡ some (r, t)
        → Step s t
    change :
        (s t : DeviceWorld W) (old new : List ℕ) (r : Result (Unit {0}))
        → change_password env pcsc class qt fuel old new s ≡ some (r, t)
        → Step s t
    test_fetch :
        (s t : DeviceWorld W) (password : List ℕ) (found : List OathCredential)
        → fetch_credentials_sync env pcsc class qt fuel password s ≡ some (found, t)
        → Step s t
    cancel :
        (s t : DeviceWorld W)
        → cancel_pending_operation env pcsc class qt fuel s ≡ some (tt, t)
        → Step s t
    reset_seen :
        (s : DeviceWorld W) (command : List ℕ) → Step s (on (on_card_reset_detected command) s)
    reconnects :
        (s t : DeviceWorld W) (reader : List ℕ) (r : Result (Unit {0}))
        → reconnect_card_handle env pcsc class qt fuel reader s ≡ some (r, t)
        → Step s t
    reconnected : (s : DeviceWorld W) (reached : Bool) → Step s (on (on_reconnect_result reached) s)

  pub data Reach (s : DeviceWorld W) : DeviceWorld W → Type 0 where
    here : Reach s s
    later : {t u : DeviceWorld W} → Reach s t → Step t u → Reach s u
