-- ===== src/Services/Passwords.antt =====
-- src/daemon/services/password_service.cpp. A device's session class is given by the device.
pub mod Cleared
use yubikey_oath_krunner.Prelude.{
  ℕ, Bool, true, false, List, [], ◌∷◌, Option, none, some, is_empty, not, if◌then◌else◌,
}
use yubikey_oath_krunner.Prelude.Maps.{lookup, insert}
use yubikey_oath_krunner.Credential.{OathCredential}
use yubikey_oath_krunner.Session.{Env, Result, success, error}
use yubikey_oath_krunner.Device.{Pcsc, SessionClass, Device, D}
use yubikey_oath_krunner.Device.Operations.{
  set_password, update_credential_cache_async, authenticate_with_password, change_password,
}
use yubikey_oath_krunner.Device.Fetch.{fetch_credentials_sync}
use yubikey_oath_krunner.Storage.{set_requires_password}
use yubikey_oath_krunner.Services.{SecretStorage, Texts, Service, on_device}

abbrev pub S : Type 0 → Type 0 → Type 0
S W A = Service W → Option (A × Service W)

abbrev pub pure : {W A : Type 0} → A → S W A
pure a s = some (a, s)

infixl 5 ◌>>=◌ ◌>>◌
abbrev pub ◌>>=◌ : {W A B : Type 0} → S W A → (A → S W B) → S W B
◌>>=◌ m f s = elim (m s) [ none ↦ none | some (a, s') ↦ f a s' ]

abbrev pub ◌>>◌ : {W B : Type 0} → S W (Unit {0}) → S W B → S W B
m >> k = m >>= λ _. k

abbrev pub modify : {W : Type 0} → (Service W → Service W) → S W (Unit {0})
modify f s = some (tt, f s)

-- A method call on a device of the manager, which is changed in place.
abbrev pub call : {W A : Type 0} → List ℕ → Device → D W A → S W A
call device_id d m s = elim (m (record { device = d; world = s.world })) [
  | none ↦ none
  | some (a, t) ↦ some (
    a,
    record s {
      manager = record (s.manager) { devices = insert device_id t.device s.manager.devices };
      world = t.world;
    },
  )
]

-- The same, of the device that the manager has now; nothing where it has none.
abbrev pub call_again : {W A : Type 0} → List ℕ → A → D W A → S W A
call_again device_id missing m s = elim (lookup device_id s.manager.devices) [
  | none ↦ some (missing, s)
  | some d ↦ call device_id d m s
]

module _ (env : Env) (pcsc : Pcsc (env.W)) (class_of : Device → SessionClass (env.W)) (t : Texts)
    (secrets : SecretStorage (env.W)) (fuel : ℕ) where
  open env use {W}

  abbrev pub on_it : List ℕ → (Device → Device) → S W (Unit {0})
  on_it device_id f = modify λ s. record s { manager = on_device f device_id s.manager }

  abbrev pub mark : List ℕ → Bool → S W (Unit {0})
  mark device_id requires =
      modify λ s. record s {
        database = (set_requires_password t.trimmed device_id requires s.database).1;
      }

  abbrev pub save_secret : List ℕ → List ℕ → S W Bool
  save_secret password device_id s =
      let (saved, w) = secrets.save_secret_of password device_id s.world in
      some (saved, record s { world = w })

  -- A wrong password: perhaps the device needs none.
  unfoldable pub try_without : List ℕ → Device → S W Bool
  unfolding set_password fetch_credentials_sync update_credential_cache_async set_requires_password
  try_without device_id d = do
    on_it device_id (set_password [])
    found ← call_again device_id [] (fetch_credentials_sync env pcsc (class_of d) t.qt fuel [])
    if is_empty found then pure false else (do
      mark device_id false
      on_it device_id (update_credential_cache_async [])
      pure true)

  unfoldable pub keep_password : List ℕ → List ℕ → S W Bool
  unfolding set_password update_credential_cache_async set_requires_password
  keep_password device_id password = do
    on_it device_id (set_password password)
    saved ← save_secret password device_id
    if not saved then pure false else (do
      mark device_id true
      on_it device_id (update_credential_cache_async password)
      pure true)

  unfoldable pub save_password : List ℕ → List ℕ → S W Bool
  unfolding authenticate_with_password try_without keep_password
  save_password device_id password s = elim (lookup device_id s.manager.devices) [
    | none ↦ some (false, s)
    | some d ↦
        (call device_id d (authenticate_with_password env pcsc (class_of d) t.qt fuel password)
            >>= λ result. elim result [
              | error e ↦ try_without device_id d
              | success _ ↦ keep_password device_id password
            ])
          s
  ]

  -- The password was removed.
  unfoldable pub drop_password : List ℕ → S W (Unit {0})
  unfolding set_password set_requires_password
  drop_password device_id = do
    modify (λ s. record s { world = secrets.remove_secret device_id s.world })
    mark device_id false
    on_it device_id (set_password [])

  unfoldable pub store_changed : List ℕ → List ℕ → S W Bool
  unfolding drop_password set_password set_requires_password update_credential_cache_async
  store_changed device_id new_password =
      if is_empty new_password
      then (drop_password device_id
          >> (on_it device_id (update_credential_cache_async new_password) >> pure true))
      else (do
        saved ← save_secret new_password device_id
        if not saved then pure false else (do
          mark device_id true
          on_it device_id (set_password new_password)
          on_it device_id (update_credential_cache_async new_password)
          pure true))

  unfoldable pub change_stored_password : List ℕ → List ℕ → List ℕ → S W Bool
  unfolding change_password store_changed
  change_stored_password device_id old_password new_password s =
      elim (lookup device_id s.manager.devices) [
        | none ↦ some (false, s)
        | some d ↦
            (call device_id d
                  (change_password env pcsc (class_of d) t.qt fuel old_password new_password)
                >>= λ result. elim result [
                  | error e ↦ pure false
                  | success _ ↦ store_changed device_id new_password
                ])
              s
      ]
