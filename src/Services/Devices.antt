-- ===== src/Services/Devices.antt =====
-- src/daemon/services/device_lifecycle_service.cpp.
use yubikey_oath_krunner.Prelude.{
  ℕ, Bool, false, List, [], ◌∷◌, ◌++◌, none, some, ◌-◌, ◌||◌, ltb, length, is_empty, list_eq, not,
  if◌then◌else◌,
}
use yubikey_oath_krunner.Prelude.Maps.{lookup, insert, erase}
use yubikey_oath_krunner.Version.{to_string}
use yubikey_oath_krunner.Device.{Device, connecting, authenticating}
use yubikey_oath_krunner.Device.Lifecycle.{set_state}
use yubikey_oath_krunner.Device.Operations.{set_password, update_credential_cache_async}
use yubikey_oath_krunner.Manager.{remove_device_from_memory}
use yubikey_oath_krunner.Storage.{
  Database, add_device, is_stored, update_device_info, update_device_name, update_last_seen,
  get_device_row, requires_password_of, remove_device,
}
use yubikey_oath_krunner.Services.{
  SecretStorage, Texts, Service, device_connected, device_disconnected, on_device, default_name,
  generate_default_name,
}

module _ (t : Texts) where
  -- The database with a new device in it, under a name for the time being.
  unfoldable pub enter_if_new : ℕ → List ℕ → Device → Database → Database
  unfolding default_name
  enter_if_new now device_id d db =
      if is_stored t.trimmed device_id db
      then db
      else (add_device t.trimmed now device_id (default_name device_id) d.requires_password db).1

  -- The name that belongs to the model, where the stored one is another.
  unfoldable pub rename : List ℕ → Device → Database → Database
  unfolding generate_default_name
  rename device_id d db =
      let name = generate_default_name t device_id d.device_model d.serial_number db in
      let renamed = (update_device_name t.trimmed device_id name db).1 in
      elim (get_device_row t.trimmed device_id db) [
        | none ↦ renamed
        | some row ↦ if list_eq row.device_name name then db else renamed
      ]

  -- The database after the information of the device, and then its name, is brought up to date.
  unfoldable pub sync : ℕ → List ℕ → Device → Database → Database
  unfolding enter_if_new rename
  sync now device_id d db =
      let (updated, db') =
        update_device_info t.trimmed device_id (to_string t.qt d.firmware_version)
          d.device_model.model_code d.serial_number d.form_factor
          (enter_if_new now device_id d db) in
      if updated then rename device_id d db' else db'

  unfoldable pub set_device_name : List ℕ → List ℕ → Database → Bool × Database
  set_device_name device_id new_name db =
      let name = t.trimmed new_name in
      if is_empty device_id || is_empty name
      then (false, db)
      else if ltb 64 (length name)
      then (false, db)
      else if not (is_stored t.trimmed device_id db)
      then (false, db)
      else update_device_name t.trimmed device_id name db

  module _ {W : Type 0} where
    -- The device is asked for its credentials, or its password is loaded first.
    unfoldable pub begin_fetch : List ℕ → Service W → Service W
    begin_fetch device_id s =
        if requires_password_of t.trimmed device_id s.database
        then record s {
          manager = on_device (set_state authenticating) device_id s.manager;
          loads = s.loads ++ device_id ∷ [];
        }
        else record s { manager = on_device (update_credential_cache_async []) device_id s.manager }

    unfoldable pub accept : ℕ → List ℕ → Device → Service W → Service W
    unfolding sync begin_fetch
    accept now device_id d s =
        let synced = record s {
          manager = on_device (set_state connecting) device_id s.manager;
          database = sync now device_id d s.database;
        } in
        let fetching = begin_fetch device_id synced in
        record fetching { signals = device_connected device_id ∷ fetching.signals }

    -- A device that is not in the manager is not entered.
    unfoldable pub connect_if_there : ℕ → List ℕ → Service W → Service W
    unfolding accept
    connect_if_there now device_id s = elim (lookup device_id s.manager.devices) [
      | none ↦ s
      | some d ↦ accept now device_id d s
    ]

    -- `now_ms` is the clock for the grace period after a device was forgotten, `now` the time that is
    -- stored. A difference below zero is below 500 too.
    unfoldable pub on_device_connected : ℕ → ℕ → List ℕ → Service W → Service W
    unfolding connect_if_there
    on_device_connected now_ms now device_id s = elim (lookup device_id s.forgotten) [
      | none ↦ connect_if_there now device_id s
      | some since ↦
          if ltb (now_ms - since) 500
          then s
          else connect_if_there now device_id (record s { forgotten = erase device_id s.forgotten })
    ]

    -- The end of the thread that loads a password, for a device that is still there.
    unfoldable pub password_loaded : List ℕ → List ℕ → Service W → Service W
    password_loaded device_id password s =
        let give =
          λ (d : Device). update_credential_cache_async password (set_password password d) in
        record s {
          manager =
              on_device (if is_empty password then update_credential_cache_async [] else give)
                device_id s.manager;
        }

    unfoldable pub on_device_disconnected : ℕ → List ℕ → Service W → Service W
    on_device_disconnected now device_id s = record s {
      database = (update_last_seen t.trimmed now device_id s.database).1;
      signals = device_disconnected device_id ∷ s.signals;
    }

    -- The password, the database, the time for the grace period, and the memory, in this order.
    unfoldable pub forget_device : SecretStorage W → ℕ → List ℕ → Service W → Service W
    forget_device secrets now_ms device_id s = record s {
      world = secrets.remove_secret device_id s.world;
      database = (remove_device t.trimmed device_id s.database).1;
      forgotten = insert device_id now_ms s.forgotten;
      manager = remove_device_from_memory device_id s.manager;
    }
