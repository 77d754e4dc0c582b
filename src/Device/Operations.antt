-- ===== src/Device/Operations.antt =====
-- The operations of src/daemon/oath/oath_device.cpp on one card, in a transaction of
-- src/daemon/pcsc/card_transaction.cpp. The mutex of the card makes each of them one step.
pub mod Bind
pub mod Outcomes
use yubikey_oath_krunner.Prelude.{
  ℕ, Bool, true, false, List, [], ◌∷◌, Option, none, some, ◌==◌, not, if◌then◌else◌, is_empty,
  list_eq,
}
use yubikey_oath_krunner.Prelude.Text.{Qt}
use yubikey_oath_krunner.Credential.{OathCredentialData, OathCredential}
use yubikey_oath_krunner.Session.{
  Env, Event, touch_required, Error, Result, success, error, credential_not_found,
  invalid_card_handle, begin_transaction_failed, transaction_select_failed, authentication_failed,
}
use yubikey_oath_krunner.Session
use yubikey_oath_krunner.Session.Operations.{
  select_oath_application, put_credential, delete_credential, cancel_operation,
}
use yubikey_oath_krunner.Session.Password
use yubikey_oath_krunner.Device.{
  Pcsc, SessionClass, Device, D, pure, ◌>>=◌, ◌>>◌, get_device, modify, in_session, in_world,
  queued, needs_reconnect, reconnect_ready, reconnect_failed, error_state, fetching_credentials,
}
use yubikey_oath_krunner.Device.Lifecycle.{set_state, same_state}

-- The first cached credential with the name.
unfoldable pub find_original : List ℕ → List OathCredential → Option OathCredential
find_original name [] = none
find_original name (c ∷ cs) = if list_eq c.original_name name then some c else find_original name cs

unfoldable pub set_password : List ℕ → Device → Device
set_password password d = record d { password = password }

-- The password that an operation uses.
abbrev pub or_stored : List ℕ → List ℕ → List ℕ
or_stored password stored = if is_empty password then stored else password

-- `updateCredentialCacheAsync` behind its test of the flag, up to the start of its thread.
unfoldable pub begin_update : List ℕ → Device → Device
unfolding set_state
begin_update password d =
    let started = record d { update_in_progress = true } in
    let shown =
      if same_state d.state error_state then started else set_state fetching_credentials started in
    record shown { updates = queued (or_stored password d.password) ∷ d.updates }

-- The whole, as one thread runs it. The flag is tested and set without a lock, so between the two
-- another thread can do the same: `Device.Fetch.Steps` has `begin_update` as a step of its own.
unfoldable pub update_credential_cache_async : List ℕ → Device → Device
unfolding begin_update
update_credential_cache_async password d =
    if d.update_in_progress then d else begin_update password d

unfoldable pub on_card_reset_detected : List ℕ → Device → Device
on_card_reset_detected command d = record d {
  signals = needs_reconnect d.device_id d.reader_name command ∷ d.signals;
}

unfoldable pub on_reconnect_result : Bool → Device → Device
on_reconnect_result reached d = record d {
  signals = (if reached then reconnect_ready else reconnect_failed) ∷ d.signals;
}

module _ (env : Env) (pcsc : Pcsc (env.W)) (class : SessionClass (env.W)) (qt : Qt) (fuel : ℕ) where
  open env use {W}

  unfoldable pub select_unless : Bool → D W (Result (List ℕ))
  select_unless true = pure (success [])
  select_unless false = in_session (select_oath_application env qt fuel class.parse_select)

  -- A failed SELECT leaves the transaction without its body.
  unfoldable pub body_after : {A : Type 0} → D W (Result A) → Result (List ℕ) → D W (Result A)
  body_after body (error e) = pure (error (transaction_select_failed e))
  body_after body (success _) = body

  unfoldable pub end_with : {A : Type 0} → ℕ → Result A → D W (Result A)
  end_with handle result = do in_world (λ w. (tt, pcsc.end_transaction handle w)); pure result

  -- The rest of a transaction that has begun: SELECT unless it is skipped, the body, and the end of
  -- the transaction, which the destructor sends in every case.
  unfoldable pub in_transaction : {A : Type 0} → ℕ → Bool → D W (Result A) → D W (Result A)
  unfolding select_unless body_after end_with
  in_transaction handle skip_select body = do
    selected ← select_unless skip_select
    result ← body_after body selected
    end_with handle result

  -- `const CardTransaction transaction(...)` with what the caller does under it.
  unfoldable pub with_transaction : {A : Type 0} → Bool → D W (Result A) → D W (Result A)
  unfolding in_transaction
  with_transaction skip_select body = do
    d ← get_device
    if d.card_handle == 0 then pure (error invalid_card_handle) else (do
      begun ← in_world (pcsc.begin_transaction d.card_handle)
      elim begun [
        | some code ↦ pure (error (begin_transaction_failed code))
        | none ↦ in_transaction d.card_handle skip_select body
      ])

  unfoldable pub authenticate : List ℕ → D W (Result (Unit {0}))
  authenticate password = do
    d ← get_device
    in_session (Password.authenticate env qt fuel class.parse_select password d.device_id)

  -- Authentication with the stored password, if there is one.
  unfoldable pub authenticate_stored : D W (Result (Unit {0}))
  unfolding authenticate
  authenticate_stored = do
    d ← get_device
    if is_empty d.password then pure (success tt) else authenticate d.password

  -- The touch signal, before CALCULATE waits for the touch.
  unfoldable pub announce_touch : Bool → D W (Unit {0})
  announce_touch true = in_session (Session.emit touch_required)
  announce_touch false = pure tt

  unfoldable pub code_of : List ℕ → OathCredential → D W (Result (List ℕ))
  unfolding announce_touch
  code_of name cred = do
    announce_touch cred.requires_touch
    in_session (class.calculate_code name cred.period)

  unfoldable pub authenticated_code : List ℕ → OathCredential → D W (Result (List ℕ))
  unfolding authenticate_stored code_of
  authenticated_code name cred = do
    authenticated ← authenticate_stored
    elim authenticated [
      | error e ↦ pure (error authentication_failed)
      | success _ ↦ code_of name cred
    ]

  unfoldable pub generate_code : List ℕ → D W (Result (List ℕ))
  unfolding with_transaction authenticated_code
  generate_code name = do
    d ← get_device
    elim (find_original name d.credentials) [
      | none ↦ pure (error credential_not_found)
      | some cred ↦ with_transaction (not (is_empty d.password)) (authenticated_code name cred)
    ]

  unfoldable pub authenticate_with_password : List ℕ → D W (Result (Unit {0}))
  unfolding with_transaction authenticate set_password
  authenticate_with_password password = with_transaction false (do
    result ← authenticate password
    elim result [
      | error e ↦ pure (error e)
      | success _ ↦ (modify (set_password password) >> pure (success tt))
    ])

  -- What adding and deleting have in common: authentication, the change, and a new fetch.
  unfoldable pub change_credentials : D W (Result (Unit {0})) → D W (Result (Unit {0}))
  unfolding with_transaction authenticate_stored update_credential_cache_async
  change_credentials change = with_transaction false (do
    authenticated ← authenticate_stored
    elim authenticated [
      | error e ↦ pure (error e)
      | success _ ↦ do
        result ← change
        elim result [
          | error e ↦ pure (error e)
          | success _ ↦ do
            d ← get_device
            modify (update_credential_cache_async d.password)
            pure (success tt)
        ]
    ])

  unfoldable pub add_credential : OathCredentialData → D W (Result (Unit {0}))
  unfolding change_credentials
  add_credential data' = change_credentials (in_session (put_credential env qt fuel data'))

  unfoldable pub delete_credential_named : List ℕ → D W (Result (Unit {0}))
  unfolding change_credentials
  delete_credential_named name =
      change_credentials (in_session (delete_credential env qt fuel name))

  -- The stored password stays the old one; the password service replaces it.
  unfoldable pub change_password : List ℕ → List ℕ → D W (Result (Unit {0}))
  unfolding with_transaction
  change_password old new = with_transaction false (do
    d ← get_device
    in_session (Password.change_password env qt fuel class.parse_select old new d.device_id))

  unfoldable pub cancel_pending_operation : D W (Unit {0})
  cancel_pending_operation = in_session (cancel_operation env qt fuel)
