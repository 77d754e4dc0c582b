-- ===== src/Services/Credentials/Found.antt =====
-- Which offline device the cache names for a credential.
use yubikey_oath_krunner.Prelude.{
  ℕ, ◌≡◌, ◌⊎◌, inl, inr, true, false, List, [], ◌∷◌, Option, none, some, Bool-cases,
}
use yubikey_oath_krunner.Manager.{Manager, has_device}
use yubikey_oath_krunner.Storage.{Database, DeviceRow, get_cached_credentials, get_all_devices}
use yubikey_oath_krunner.Services.Credentials.{
  has_original, search_offline, find_cached_credential_device,
}

module _ (trimmed : List ℕ → List ℕ) (m : Manager) (db : Database) (name : List ℕ) where
  -- The device is not connected and has a cached credential with the name.
  abbrev pub Holds : List ℕ → Type 0
  Holds id =
      (has_device id m ≡ false) × (has_original name (get_cached_credentials trimmed id db) ≡ true)

  -- No device of these rows is such a one.
  abbrev pub NoneHolds : List (List ℕ × DeviceRow) → Type 0
  NoneHolds [] = Unit {0}
  NoneHolds ((id, row) ∷ rows) =
      ((has_device id m ≡ true)
        ⊎ (has_original name (get_cached_credentials trimmed id db) ≡ false))
      × NoneHolds rows

  -- The result of a search in these rows.
  abbrev pub Searched : List (List ℕ × DeviceRow) → Option (List ℕ) → Type 0
  Searched rows none = NoneHolds rows
  Searched rows (some id) = Holds id

  skip_row :
      (id : List ℕ) (row : DeviceRow) (rows : List (List ℕ × DeviceRow)) (o : Option (List ℕ))
      → ((has_device id m ≡ true)
          ⊎ (has_original name (get_cached_credentials trimmed id db) ≡ false))
      → Searched rows o
      → Searched ((id, row) ∷ rows) o
  skip_row id row rows none passed later = (passed, later)
  skip_row id row rows (some found) passed later = later

  search_offline-Searched :
      (rows : List (List ℕ × DeviceRow))
      → Searched rows (search_offline trimmed true m db name rows)
  unfolding search_offline
  search_offline-Searched [] = tt
  search_offline-Searched ((id, row) ∷ rows) =
      let next = search_offline trimmed true m db name rows in
      elim (Bool-cases (has_device id m)) [
        | inl e ↦ rw e (skip_row id row rows next (inl e) (search_offline-Searched rows))
        | inr e ↦ elim (Bool-cases (has_original name (get_cached_credentials trimmed id db))) [
          | inl e' ↦ rw (e, e') (e, e')
          | inr e' ↦ rw (e, e') (skip_row id row rows next (inr e') (search_offline-Searched rows))
        ]
      ]

  -- With the cache enabled and no hint, the device that is named is not connected and has the
  -- credential in its cache; and none is named only if there is no such device in the database.
  pub find_cached_credential_device-Searched :
      Searched (get_all_devices db) (find_cached_credential_device trimmed true m db name [])
  unfolding find_cached_credential_device
  find_cached_credential_device-Searched = search_offline-Searched (get_all_devices db)
