-- ===== src/Services/Renamed.antt =====
-- The names of devices in the database, as users and connections set them, and forgotten devices.
use yubikey_oath_krunner.Prelude.{
  ℕ, ◌≡◌, ◌<◌, ◌+◌, refl, ap, ◌∙◌, true, false, List, [], ◌∷◌, ◌++◌, Option, none, some, arith,
  list_eq, is_empty, Bool-cases, Option-cases, ltb, ◌-◌, inl, inr,
}
use yubikey_oath_krunner.Prelude.Text.{codes}
use yubikey_oath_krunner.Prelude.Maps.{
  lookup, erase, list_eq_iff, lookup-insert_self, lookup-erase_self,
}
use yubikey_oath_krunner.Version.{to_string}
use yubikey_oath_krunner.Device.{Device}
use yubikey_oath_krunner.Manager.{Manager, remove_device_from_memory}
use yubikey_oath_krunner.Storage.{
  DeviceRow, Database, update_device_name, update_valid, get_device_row, is_valid_device_id,
  is_stored, update_device_info, remove_device, rows_of, clear_device_credentials,
}
use yubikey_oath_krunner.Storage.Saved.{rows_of-erase_self}
use yubikey_oath_krunner.Services.{
  SecretStorage, Texts, Service, generate_default_name, get_device_display_name, is_unknown,
}
use yubikey_oath_krunner.Services.Devices.{
  enter_if_new, rename, sync, begin_fetch, accept, connect_if_there, on_device_connected,
  set_device_name, forget_device,
}

module _ (t : Texts) (device_id : List ℕ) where
  abbrev pub name_in : Database → Option (List ℕ)
  name_in db = elim (get_device_row t.trimmed device_id db) [
    | none ↦ none
    | some row ↦ some row.device_name
  ]

  update_device_name-name :
      (name : List ℕ) (db : Database) (row : DeviceRow)
      → get_device_row t.trimmed device_id db ≡ some row
      → name_in (update_device_name t.trimmed device_id name db).1 ≡ some name
  unfolding update_device_name get_device_row update_valid
  update_device_name-name name db row e =
      ground
        (arith, e, lookup-insert_self device_id (record row { device_name = name }) db.device_rows)

  named :
      (db : Database) (name : List ℕ)
      → name_in db ≡ some name
      → is_empty name ≡ false
      → get_device_display_name t device_id db ≡ name
  unfolding get_device_display_name
  named db name e full = ground (arith, e, full)

  set_device_name-accepted :
      (new_name : List ℕ) (db : Database)
      → (set_device_name t device_id new_name db).0 ≡ true
      → (is_empty (t.trimmed new_name) ≡ false)
        × (is_stored t.trimmed device_id db ≡ true)
        × ((set_device_name t device_id new_name db).1
            ≡ (update_device_name t.trimmed device_id (t.trimmed new_name) db).1)
  unfolding set_device_name
  set_device_name-accepted new_name db h = ground (arith, h)

  stored_row :
      (db : Database)
      → is_stored t.trimmed device_id db ≡ true
      → (row : DeviceRow) × (get_device_row t.trimmed device_id db ≡ some row)
  unfolding is_stored
  stored_row db h = elim (Option-cases (get_device_row t.trimmed device_id db)) [
    | inl e ↦ absurd (ground (arith, h, e))
    | inr (row, e) ↦ (row, e)
  ]

  set_device_name-name :
      (new_name : List ℕ) (db : Database)
      → (set_device_name t device_id new_name db).0 ≡ true
      → name_in (set_device_name t device_id new_name db).1 ≡ some (t.trimmed new_name)
  set_device_name-name new_name db h =
      let (full, there, same) = set_device_name-accepted new_name db h in
      let (row, e) = stored_row db there in
      ap name_in same ∙ update_device_name-name (t.trimmed new_name) db row e

  -- A name that is accepted is the name that is then displayed, without the space around it.
  pub set_device_name-displayed :
      (new_name : List ℕ) (db : Database)
      → (set_device_name t device_id new_name db).0 ≡ true
      → get_device_display_name t device_id (set_device_name t device_id new_name db).1
        ≡ t.trimmed new_name
  set_device_name-displayed new_name db h =
      named (set_device_name t device_id new_name db).1 (t.trimmed new_name)
        (set_device_name-name new_name db h) (set_device_name-accepted new_name db h).0

  module _ (d : Device) where
    rename-name :
        (db : Database) (row : DeviceRow)
        → get_device_row t.trimmed device_id db ≡ some row
        → name_in (rename t device_id d db)
          ≡ some (generate_default_name t device_id d.device_model d.serial_number db)
    unfolding rename
    rename-name db row e =
        let name = generate_default_name t device_id d.device_model d.serial_number db in
        elim (Bool-cases (list_eq row.device_name name)) [
          | inl same ↦
              let kept : rename t device_id d db ≡ db = ground (arith, e, same) in
              ap name_in kept ∙ ground (arith, e, (list_eq_iff row.device_name name).0 same)
          | inr other ↦
              let changed : rename t device_id d db
                  ≡ (update_device_name t.trimmed device_id name db).1 =
                ground (arith, e, other) in
              ap name_in changed ∙ update_device_name-name name db row e
        ]

    update_device_info-row :
        (db : Database) (row : DeviceRow) (firmware : List ℕ)
        → get_device_row t.trimmed device_id db ≡ some row
        → let after =
            update_device_info t.trimmed device_id firmware d.device_model.model_code
              d.serial_number d.form_factor db in
          (after.0 ≡ true)
          × (row' : DeviceRow) × (get_device_row t.trimmed device_id after.1 ≡ some row')
    unfolding update_device_info get_device_row
    update_device_info-row db row firmware e = (
      ground (arith, e),
      record row {
        firmware_text = firmware;
        device_model = d.device_model.model_code;
        serial_number = d.serial_number;
        form_factor = d.form_factor;
      },
      ground (
        arith,
        e,
        lookup-insert_self device_id
            (record row {
              firmware_text = firmware;
              device_model = d.device_model.model_code;
              serial_number = d.serial_number;
              form_factor = d.form_factor;
            })
            db.device_rows,
      ),
    )

    sync-name :
        (now : ℕ) (db : Database) (row : DeviceRow)
        → get_device_row t.trimmed device_id db ≡ some row
        → (db' : Database) × (name_in (sync t now device_id d db)
            ≡ some (generate_default_name t device_id d.device_model d.serial_number db'))
    unfolding sync enter_if_new is_stored
    sync-name now db row e =
        let (done, row', e') =
          update_device_info-row db row (to_string t.qt d.firmware_version) e in
        let after =
          (update_device_info t.trimmed device_id (to_string t.qt d.firmware_version)
            d.device_model.model_code d.serial_number d.form_factor db).1 in
        let same : sync t now device_id d db ≡ rename t device_id d after =
          ground (arith, e, done) in
        (after, ap name_in same ∙ rename-name after row' e')

    -- The device's model has a text of its own, and its serial number is known.
    abbrev pub IsNamed : Type 0
    IsNamed =
        (is_unknown d.device_model.brand ≡ false)
        × (is_empty d.device_model.model_string ≡ false)
        × (list_eq d.device_model.model_string (codes "Unknown") ≡ false)
        × (0 < d.serial_number)

    abbrev pub model_and_serial : List ℕ
    model_and_serial = d.device_model.model_string ++ (codes " - " ++ t.qt.number d.serial_number)

    generate_default_name-named :
        (db : Database)
        → IsNamed
        → generate_default_name t device_id d.device_model d.serial_number db ≡ model_and_serial
    unfolding generate_default_name
    generate_default_name-named db h = ground (arith, h)

    append-full : (xs ys : List ℕ) → is_empty xs ≡ false → is_empty (xs ++ ys) ≡ false
    append-full [] ys h = cc
    append-full (x ∷ xs) ys h = refl

    row_of_name :
        (db : Database) (name : List ℕ)
        → name_in db ≡ some name
        → (row : DeviceRow) × (get_device_row t.trimmed device_id db ≡ some row)
    row_of_name db name h = elim (Option-cases (get_device_row t.trimmed device_id db)) [
      | inl e ↦ absurd (ground (arith, h, e))
      | inr (row, e) ↦ (row, e)
    ]

    module _ {W : Type 0} (now_ms now : ℕ) where
      on_device_connected-database :
          (s : Service W)
          → lookup device_id s.manager.devices ≡ some d
          → lookup device_id s.forgotten ≡ none
          → (on_device_connected t now_ms now device_id s).database
            ≡ sync t now device_id d s.database
      unfolding on_device_connected connect_if_there accept begin_fetch
      on_device_connected-database s there free = ground (arith, there, free)

      -- The state after the user has given the device a name.
      abbrev pub with_name : List ℕ → Service W → Service W
      with_name new_name s = record s {
        database = (set_device_name t device_id new_name s.database).1;
      }

      -- A connection of a known device replaces the name that its user has set by that of its model
      -- and its serial number, whatever the name was.
      pub set_device_name-lost :
          (new_name : List ℕ) (s : Service W)
          → (set_device_name t device_id new_name s.database).0 ≡ true
          → lookup device_id s.manager.devices ≡ some d
          → lookup device_id s.forgotten ≡ none
          → IsNamed
          → get_device_display_name t device_id
              (on_device_connected t now_ms now device_id (with_name new_name s)).database
            ≡ model_and_serial
      set_device_name-lost new_name s h there free own =
          let (row, e) =
            row_of_name (with_name new_name s).database (t.trimmed new_name)
              (set_device_name-name new_name s.database h) in
          let (db', shown) = sync-name now (with_name new_name s).database row e in
          named (on_device_connected t now_ms now device_id (with_name new_name s)).database
            model_and_serial
            (ap name_in (on_device_connected-database (with_name new_name s) there free)
              ∙ shown
              ∙ ap some (generate_default_name-named db' own))
            (append-full d.device_model.model_string (codes " - " ++ t.qt.number d.serial_number)
              own.1)

remove_device-both :
    (trimmed : List ℕ → List ℕ) (device_id : List ℕ) (db : Database)
    → is_valid_device_id trimmed device_id ≡ true
    → trimmed device_id ≡ device_id
    → (remove_device trimmed device_id db).1 ≡ record {
      device_rows = erase device_id db.device_rows;
      credential_rows = erase device_id db.credential_rows;
    }
unfolding remove_device clear_device_credentials
remove_device-both trimmed device_id db valid same = rw (same, valid) refl

get_device_row-gone :
    (trimmed : List ℕ → List ℕ) (device_id : List ℕ) (db : Database)
    → lookup device_id db.device_rows ≡ none
    → get_device_row trimmed device_id db ≡ none
unfolding get_device_row
get_device_row-gone trimmed device_id db h = ground (arith, h)

debounced :
    {W : Type 0} (t : Texts) (now_ms now since : ℕ) (device_id : List ℕ) (s : Service W)
    → lookup device_id s.forgotten ≡ some since
    → ltb (now_ms - since) 500 ≡ true
    → on_device_connected t now_ms now device_id s ≡ s
unfolding on_device_connected
debounced t now_ms now since device_id s e soon = ground (arith, e, soon)

module _ {W : Type 0} (t : Texts) (secrets : SecretStorage W) (device_id : List ℕ) (forgot_ms : ℕ)
    (s : Service W) where
  abbrev pub after_forget : Service W
  after_forget = forget_device t secrets forgot_ms device_id s

  -- A device that was forgotten under a valid id, of 16 hexadecimal digits, without space around it, is in
  -- neither table and not in memory. And for 500 milliseconds its connection changes nothing, whatever
  -- the manager and the database are by then: not even where the manager has the device again.
  pub forget_device-stays :
      (now_ms now : ℕ) (m : Manager) (db : Database)
      → is_valid_device_id t.trimmed device_id ≡ true
      → t.trimmed device_id ≡ device_id
      → now_ms < forgot_ms + 500
      → (get_device_row t.trimmed device_id after_forget.database ≡ none)
        × (rows_of device_id after_forget.database.credential_rows ≡ [])
        × (lookup device_id after_forget.manager.devices ≡ none)
        × (on_device_connected t now_ms now device_id
              (record after_forget { manager = m; database = db })
            ≡ record after_forget { manager = m; database = db })
  unfolding forget_device remove_device_from_memory
  forget_device-stays now_ms now m db valid same soon =
      let both = remove_device-both t.trimmed device_id s.database valid same in
      (
        get_device_row-gone t.trimmed device_id after_forget.database (
            ap (λ (db : Database). lookup device_id db.device_rows) both
            ∙ lookup-erase_self device_id s.database.device_rows),
        ap (λ (db : Database). rows_of device_id db.credential_rows) both
            ∙ rows_of-erase_self device_id s.database.credential_rows,
        lookup-erase_self device_id s.manager.devices,
        debounced t now_ms now forgot_ms device_id
            (record after_forget { manager = m; database = db })
            (lookup-insert_self device_id forgot_ms s.forgotten) (ground (arith, soon)),
      )
