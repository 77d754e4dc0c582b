-- ===== src/Device/Fetch/Reachable.antt =====
-- The states that a device reaches, and two updates that start at once.
use yubikey_oath_krunner.Prelude.{
  ℕ, ◌≡◌, ◌∙◌, inl, inr, refl, false, List, [], ◌∷◌, ◌++◌, some, arith,
}
use yubikey_oath_krunner.Prelude.Text.{Qt}
use yubikey_oath_krunner.Credential.{OathCredential}
use yubikey_oath_krunner.Session.{Env, Result}
use yubikey_oath_krunner.Device.{
  Pcsc, SessionClass, Device, DeviceWorld, Update, disconnected, queued, fetched,
}
use yubikey_oath_krunner.Device.Lifecycle.{set_state}
use yubikey_oath_krunner.Device.Operations
use yubikey_oath_krunner.Device.Operations.{or_stored, begin_update, update_credential_cache_async}
use yubikey_oath_krunner.Device.Fetch.{finish_update}
use yubikey_oath_krunner.Device.Fetch.Steps.{
  with_updates, Step, connect, await_password, give_password, start_update, start_late, fetch,
  finish, code, log_in, add, delete, change, test_fetch, cancel, reset_seen, reconnects,
  reconnected, Reach, here, later,
}
use yubikey_oath_krunner.Device.Fetch.Tracked
use yubikey_oath_krunner.Device.Fetch.Tracked.{IsTracked}
use yubikey_oath_krunner.Device.Reconnect.{reconnect_card_handle}
use yubikey_oath_krunner.Device.Reconnect.Attempts.{
  Failures, none_left, one_more, Failure-device, dropped, reconnect_card_handle-Ends,
}

-- A device as its constructor leaves it, as far as threads are concerned.
abbrev pub IsNew : Device → Type 0
IsNew d =
    (d.update_in_progress ≡ false)
    × (d.updates ≡ [])
    × (d.state ≡ disconnected)
    × (d.last_error ≡ [])

IsNew-IsTracked : (d : Device) → IsNew d → IsTracked d
IsNew-IsTracked d new = ground (arith, new)

module _ (env : Env) (pcsc : Pcsc (env.W)) (class : SessionClass (env.W)) (qt : Qt) (fuel : ℕ) where
  open env use {W}

  with_updates-IsTracked :
      (before after : List Update) (u : Update) (d : Device)
      → IsTracked d
      → IsTracked (with_updates (before ++ u ∷ after) d)
  with_updates-IsTracked [] after u d i = record {
    flag = inr refl;
    no_error = i.no_error;
    no_message = i.no_message;
  }
  with_updates-IsTracked (v ∷ before) after u d i = record {
    flag = inr refl;
    no_error = i.no_error;
    no_message = i.no_message;
  }

  finish_update-IsTracked :
      (us : List Update) (found : List OathCredential) (d : Device)
      → IsTracked d
      → IsTracked (with_updates us (finish_update found d))
  unfolding finish_update
  finish_update-IsTracked us found d i = ground (arith, i)

  Failures-device :
      {reader waits : List ℕ} {s t : DeviceWorld W}
      → Failures env pcsc class qt fuel reader waits s t
      → t.device ≡ s.device
  Failures-device (none_left s) = refl
  Failures-device (one_more ms waits s u t f fs) =
      Failures-device fs ∙ Failure-device env pcsc class qt fuel f

  -- A new handle, or none, is all that a reconnect changes for the threads.
  reconnects-IsTracked :
      (s t : DeviceWorld W) (reader : List ℕ) (r : Result (Unit {0}))
      → reconnect_card_handle env pcsc class qt fuel reader s ≡ some (r, t)
      → IsTracked s.device
      → IsTracked t.device
  reconnects-IsTracked s t reader r h i =
      let gone : IsTracked (dropped env pcsc class qt fuel s).device = ground (arith, i) in
      elim (reconnect_card_handle-Ends env pcsc class qt fuel reader s t r h) [
        | inl (_, early, late, ms, u, _, failures, (handle, protocol, challenge, w, _, _, at)) ↦
            let same = Failures-device failures in
            let renewed : IsTracked u.device = ground (arith, gone, same) in
            ground (arith, renewed, at)
        | inr (_, _, same) ↦ ground (arith, gone, same)
      ]

  Step-IsTracked :
      {s t : DeviceWorld W}
      → Step env pcsc class qt fuel s t
      → IsTracked s.device
      → IsTracked t.device
  unfolding set_state Operations.on_card_reset_detected Operations.on_reconnect_result
  Step-IsTracked (connect s) i = ground (arith, i)
  Step-IsTracked (await_password s) i = ground (arith, i)
  Step-IsTracked (give_password s password) i = Tracked.set_password-IsTracked password s.device i
  Step-IsTracked (start_update s password) i =
      Tracked.update_credential_cache_async-IsTracked password s.device i
  Step-IsTracked (start_late s password) i = Tracked.begin_update-IsTracked password s.device i
  Step-IsTracked (fetch s t before after password found e h) i =
      with_updates-IsTracked before after (fetched found) t.device
        (Tracked.Keeps-fetch_credentials_sync env pcsc class qt fuel password s t found h i)
  Step-IsTracked (finish s before after found e) i =
      finish_update-IsTracked (before ++ after) found s.device i
  Step-IsTracked (code s t name r h) i =
      Tracked.Keeps-generate_code env pcsc class qt fuel name s t r h i
  Step-IsTracked (log_in s t password r h) i =
      Tracked.Keeps-authenticate_with_password env pcsc class qt fuel password s t r h i
  Step-IsTracked (add s t d r h) i = Tracked.Keeps-add_credential env pcsc class qt fuel d s t r h i
  Step-IsTracked (delete s t name r h) i =
      Tracked.Keeps-delete_credential_named env pcsc class qt fuel name s t r h i
  Step-IsTracked (change s t old new r h) i =
      Tracked.Keeps-change_password env pcsc class qt fuel old new s t r h i
  Step-IsTracked (test_fetch s t password found h) i =
      Tracked.Keeps-fetch_credentials_sync env pcsc class qt fuel password s t found h i
  Step-IsTracked (cancel s t h) i =
      Tracked.Keeps-cancel_pending_operation env pcsc class qt fuel s t tt h i
  Step-IsTracked (reset_seen s command) i = ground (arith, i)
  Step-IsTracked (reconnects s t reader r h) i = reconnects-IsTracked s t reader r h i
  Step-IsTracked (reconnected s reached) i = ground (arith, i)

  -- Whatever a new device's threads do, in any order, and also where several of them have found the flag
  -- not set and start updates at once: the flag of an update is set only while an update runs, and the
  -- device is never in the error state and has no error message.
  pub Reach-IsTracked :
      {s t : DeviceWorld W} → IsNew s.device → Reach env pcsc class qt fuel s t → IsTracked t.device
  Reach-IsTracked {s} new here = IsNew-IsTracked s.device new
  Reach-IsTracked new (later r st) = Step-IsTracked st (Reach-IsTracked new r)

-- Two threads that both find no update in progress start two updates. When the first of them ends, the
-- flag is reset although the other still runs, and a third can start.
pub begin_update-twice :
    (p q r : List ℕ) (found : List OathCredential) (d : Device)
    → d.update_in_progress ≡ false
    → ((begin_update q d).updates ≡ queued (or_stored q d.password) ∷ d.updates)
      × (update_credential_cache_async p d ≡ begin_update p d)
      × ((begin_update q (update_credential_cache_async p d)).updates
          ≡ queued (or_stored q d.password) ∷ queued (or_stored p d.password) ∷ d.updates)
      × ((finish_update found
            (begin_update q (update_credential_cache_async p d))).update_in_progress
          ≡ false)
      × (update_credential_cache_async r
            (finish_update found (begin_update q (update_credential_cache_async p d)))
          ≡ begin_update r
              (finish_update found (begin_update q (update_credential_cache_async p d))))
unfolding begin_update update_credential_cache_async finish_update
begin_update-twice p q r found d free = (
  ground (arith, free),
  ground (arith, free),
  ground (arith, free),
  ground (arith, free),
  ground (arith, free),
)
