-- ===== src/Storage.antt =====
-- src/daemon/storage/oath_database.cpp and transaction_guard.cpp: the two tables of the device
-- database. SQLite runs each statement; it refuses what breaks a constraint of the tables. `trimmed` is
-- QString::trimmed, and `like` is SQL's LIKE, of a pattern and a text.
pub mod Saved
use yubikey_oath_krunner.Prelude.{
  ℕ, Bool, true, false, List, [], ◌∷◌, ◌++◌, map, Option, none, some, ◌+◌, ◌==◌, ◌&&◌, ◌||◌, leb,
  not, length, list_eq, if◌then◌else◌,
}
use yubikey_oath_krunner.Prelude.Text.{codes}
use yubikey_oath_krunner.Prelude.Maps.{lookup, insert, erase}
use yubikey_oath_krunner.Credential.{OathCredential, new_credential, totp}

-- A row of the table of devices, without its key. Times are numbers, and the firmware is the text
-- that the table holds, empty for NULL, which `Version::fromString` reads.
pub record DeviceRow : Type 0 where
  pub device_name : List ℕ
  pub requires_password : Bool
  pub last_seen : ℕ
  pub created_at : ℕ
  pub firmware_text : List ℕ
  pub device_model : ℕ
  pub serial_number : ℕ
  pub form_factor : ℕ

-- The rows of the table of credentials are in the order of their insertion, which is that of their
-- numbers, and each has the columns of a credential only.
pub record Database : Type 0 where
  pub device_rows : List (List ℕ × DeviceRow)
  pub credential_rows : List (List ℕ × OathCredential)

abbrev is_hex_digit : ℕ → Bool
is_hex_digit c =
    (leb b'0' c && leb c b'9') || ((leb b'a' c && leb c b'f') || (leb b'A' c && leb c b'F'))

unfoldable pub all_hex : List ℕ → Bool
all_hex [] = true
all_hex (c ∷ cs) = is_hex_digit c && all_hex cs

-- The rows of a device, in order.
unfoldable pub rows_of : {V : Type 0} → List ℕ → List (List ℕ × V) → List V
rows_of id [] = []
rows_of id ((j, v) ∷ rows) = if list_eq j id then v ∷ rows_of id rows else rows_of id rows

-- The columns that are stored, and a credential as it is read from them.
abbrev pub columns : OathCredential → OathCredential
columns cred = record new_credential {
  original_name = cred.original_name;
  issuer = cred.issuer;
  account = cred.account;
  period = cred.period;
  algorithm = cred.algorithm;
  digits = cred.digits;
  type = cred.type;
  requires_touch = cred.requires_touch;
}

abbrev pub read_row : List ℕ → OathCredential → OathCredential
read_row device_id row = record row { is_totp = row.type == totp; device_id = device_id }

-- Whether the device has a row with the name: the constraint UNIQUE of the table.
unfoldable pub has_name : List ℕ → List OathCredential → Bool
has_name name [] = false
has_name name (row ∷ rows) = if list_eq row.original_name name then true else has_name name rows

abbrev pub is_known : List ℕ → Database → Bool
is_known device_id db = elim (lookup device_id db.device_rows) [ none ↦ false | some row ↦ true ]

-- UPDATE of the row of a device, if there is one.
abbrev pub update_row : (DeviceRow → DeviceRow) → List ℕ → Database → Database
update_row f device_id db = elim (lookup device_id db.device_rows) [
  | none ↦ db
  | some row ↦ record db { device_rows = insert device_id (f row) db.device_rows }
]

-- The statements one after the other: none where one is refused.
unfoldable pub insert_new_credentials : List ℕ → List OathCredential → Database → Option Database
unfolding has_name rows_of
insert_new_credentials device_id [] db = some db
insert_new_credentials device_id (cred ∷ creds) db =
    let rest =
      insert_new_credentials device_id creds
        (record db { credential_rows = db.credential_rows ++ (device_id, columns cred) ∷ [] }) in
    if not (is_known device_id db)
    then none
    else if has_name cred.original_name (rows_of device_id db.credential_rows)
    then none
    else rest

module _ (trimmed : List ℕ → List ℕ) where
  unfoldable pub is_valid_device_id : List ℕ → Bool
  unfolding all_hex
  is_valid_device_id device_id = length (trimmed device_id) == 16 && all_hex (trimmed device_id)

  unfoldable pub add_device : ℕ → List ℕ → List ℕ → Bool → Database → Bool × Database
  unfolding is_valid_device_id
  add_device now device_id name requires db =
      if not (is_valid_device_id device_id)
      then (false, db)
      else if is_known device_id db
      then (false, db)
      else (
        true,
        record db {
          device_rows =
              insert device_id
                (record {
                  device_name = name;
                  requires_password = requires;
                  last_seen = now;
                  created_at = now;
                  firmware_text = [];
                  device_model = 0;
                  serial_number = 0;
                  form_factor = 0;
                })
                db.device_rows;
        },
      )

  -- What the updates have in common.
  unfoldable pub update_valid : (DeviceRow → DeviceRow) → List ℕ → Database → Bool × Database
  unfolding is_valid_device_id
  update_valid f device_id db =
      if is_valid_device_id device_id then (true, update_row f device_id db) else (false, db)

  unfoldable pub update_device_name : List ℕ → List ℕ → Database → Bool × Database
  unfolding update_valid
  update_device_name device_id name db =
      update_valid (λ row. record row { device_name = name }) device_id db

  unfoldable pub update_last_seen : ℕ → List ℕ → Database → Bool × Database
  unfolding update_valid
  update_last_seen now device_id db =
      update_valid (λ row. record row { last_seen = now }) device_id db

  unfoldable pub set_requires_password : List ℕ → Bool → Database → Bool × Database
  unfolding update_valid
  set_requires_password device_id requires db =
      update_valid (λ row. record row { requires_password = requires }) device_id db

  unfoldable pub clear_device_credentials : List ℕ → Database → Bool × Database
  unfolding is_valid_device_id
  clear_device_credentials device_id db =
      if is_valid_device_id device_id
      then (true, record db { credential_rows = erase device_id db.credential_rows })
      else (false, db)

  -- DELETE from both tables, by ON DELETE CASCADE too.
  unfoldable pub remove_device : List ℕ → Database → Bool × Database
  unfolding is_valid_device_id clear_device_credentials
  remove_device device_id db =
      let id = trimmed device_id in
      if is_valid_device_id id
      then (
        true,
        record ((clear_device_credentials id db).1) { device_rows = erase id db.device_rows },
      )
      else (false, db)

  unfoldable pub get_device_row : List ℕ → Database → Option DeviceRow
  unfolding is_valid_device_id
  get_device_row device_id db =
      if is_valid_device_id device_id then lookup device_id db.device_rows else none

  unfoldable pub requires_password_of : List ℕ → Database → Bool
  unfolding get_device_row
  requires_password_of device_id db = elim (get_device_row device_id db) [
    | none ↦ false
    | some row ↦ row.requires_password
  ]

  unfoldable pub is_stored : List ℕ → Database → Bool
  unfolding get_device_row
  is_stored device_id db = elim (get_device_row device_id db) [ none ↦ false | some row ↦ true ]

  -- The information of a device that is not known is refused.
  unfoldable pub update_device_info : List ℕ → List ℕ → ℕ → ℕ → ℕ → Database → Bool × Database
  unfolding is_valid_device_id
  update_device_info device_id firmware model serial form db =
      if is_valid_device_id device_id && is_known device_id db
      then (
        true,
        update_row
            (λ row. record row {
              firmware_text = firmware;
              device_model = model;
              serial_number = serial;
              form_factor = form;
            })
            device_id db,
      )
      else (false, db)

  unfoldable pub delete_old_credentials : List ℕ → Database → Option Database
  unfolding is_valid_device_id
  delete_old_credentials device_id db =
      if is_valid_device_id device_id
      then some (record db { credential_rows = erase device_id db.credential_rows })
      else none

  -- A transaction: what one statement refuses rolls all back.
  unfoldable pub save_credentials : List ℕ → List OathCredential → Database → Bool × Database
  unfolding is_valid_device_id delete_old_credentials insert_new_credentials
  save_credentials device_id credentials db =
      if not (is_valid_device_id device_id)
      then (false, db)
      else (elim (delete_old_credentials device_id db) [
        | none ↦ (false, db)
        | some cleared ↦ elim (insert_new_credentials device_id credentials cleared) [
          | none ↦ (false, db)
          | some saved ↦ (true, saved)
        ]
      ])

  unfoldable pub get_cached_credentials : List ℕ → Database → List OathCredential
  unfolding is_valid_device_id rows_of
  get_cached_credentials device_id db =
      if is_valid_device_id device_id
      then map (read_row device_id) (rows_of device_id db.credential_rows)
      else []

unfoldable pub get_all_devices : Database → List (List ℕ × DeviceRow)
get_all_devices db = db.device_rows

unfoldable pub clear_all_credentials : Database → Database
clear_all_credentials db = record db { credential_rows = [] }

unfoldable pub count_like : (List ℕ → List ℕ → Bool) → List ℕ → List (List ℕ × DeviceRow) → ℕ
count_like like pattern [] = 0
count_like like pattern ((id, row) ∷ rows) =
    (if like pattern row.device_name then 1 else 0) + count_like like pattern rows

unfoldable pub count_devices_with_name_prefix : (List ℕ → List ℕ → Bool) → List ℕ → Database → ℕ
unfolding count_like
count_devices_with_name_prefix like prefix db = count_like like (prefix ++ codes "%") db.device_rows
