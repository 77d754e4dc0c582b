-- ===== src/Storage/Saved.antt =====
-- The transaction that saves the credentials of a device.
use mathlib.Core.List.{map-map}
use yubikey_oath_krunner.Prelude.{
  ℕ, ◌≡◌, refl, ap, ◌∙◌, ◌⊎◌, inl, inr, true, false, List, [], ◌∷◌, ◌++◌, map, none, some, arith,
  subst, list_eq_refl, list_eq, if◌then◌else◌, Bool-cases, Option-cases, append-nil, append_assoc,
  ◌==◌,
}
use yubikey_oath_krunner.Prelude.Maps.{erase, list_eq_iff}
use yubikey_oath_krunner.Credential.{OathCredential}
use yubikey_oath_krunner.Storage.{
  Database, rows_of, columns, read_row, insert_new_credentials, is_valid_device_id,
  delete_old_credentials, save_credentials, get_cached_credentials,
}

rows_of-append :
    {V : Type 0} (id : List ℕ) (xs ys : List (List ℕ × V))
    → rows_of id (xs ++ ys) ≡ rows_of id xs ++ rows_of id ys
unfolding rows_of
rows_of-append id [] ys = refl
rows_of-append id ((j, v) ∷ xs) ys = ground (arith, rows_of-append id xs ys)

rows_of-erase :
    {V : Type 0} (id j : List ℕ) (rows : List (List ℕ × V))
    → rows_of j (erase id rows) ≡ (if list_eq id j then [] else rows_of j rows)
unfolding rows_of erase
rows_of-erase id j [] = ground arith
rows_of-erase id j ((i, v) ∷ rows) =
    ground (arith, list_eq_iff id j, list_eq_iff i id, list_eq_iff i j, rows_of-erase id j rows)

pub rows_of-erase_self :
    {V : Type 0} (id : List ℕ) (rows : List (List ℕ × V)) → rows_of id (erase id rows) ≡ []
rows_of-erase_self id rows = rows_of-erase id id rows ∙ rw (list_eq_refl id) refl

abbrev written : List ℕ → List OathCredential → List (List ℕ × OathCredential)
written id creds = map (λ c. (id, columns c)) creds

rows_of-written :
    (id j : List ℕ) (creds : List OathCredential)
    → rows_of j (written id creds) ≡ (if list_eq id j then map columns creds else [])
unfolding rows_of
rows_of-written id j [] = ground arith
rows_of-written id j (c ∷ cs) = ground (arith, rows_of-written id j cs)

-- What was inserted stands behind what was there.
insert_new_credentials-written :
    (id : List ℕ) (creds : List OathCredential) (db saved : Database)
    → insert_new_credentials id creds db ≡ some saved
    → saved ≡ record db { credential_rows = db.credential_rows ++ written id creds }
unfolding insert_new_credentials
insert_new_credentials-written id [] db saved h = ground (arith, h, append-nil db.credential_rows)
insert_new_credentials-written id (c ∷ cs) db saved h =
    let next : Database = record db {
      credential_rows = db.credential_rows ++ (id, columns c) ∷ [];
    } in
    let rest : insert_new_credentials id cs next ≡ some saved = ground (arith, h) in
    insert_new_credentials-written id cs next saved rest
    ∙ ap (λ rows. record db { credential_rows = rows })
        (append_assoc db.credential_rows ((id, columns c) ∷ []) (written id cs))

-- The reading of a device's credentials after what was deleted and inserted for `id`.
rows_of-saved :
    (id j : List ℕ) (creds : List OathCredential) (rows : List (List ℕ × OathCredential))
    → rows_of j (erase id rows ++ written id creds)
      ≡ (if list_eq id j then map columns creds else rows_of j rows)
rows_of-saved id j creds rows = elim (Bool-cases (list_eq id j)) [
  | inl e ↦
      rows_of-append j (erase id rows) (written id creds)
      ∙ rw (rows_of-erase id j rows, rows_of-written id j creds, e) refl
  | inr e ↦
      rows_of-append j (erase id rows) (written id creds)
      ∙ rw (rows_of-erase id j rows, rows_of-written id j creds, e) (append-nil (rows_of j rows))
]

module _ (trimmed : List ℕ → List ℕ) (id : List ℕ) (creds : List OathCredential)
    (db : Database) where
  abbrev cleared : Database
  cleared = record db { credential_rows = erase id db.credential_rows }

  save_credentials-valid :
      is_valid_device_id trimmed id ≡ true
      → save_credentials trimmed id creds db ≡ elim (insert_new_credentials id creds cleared) [
        | none ↦ (false, db)
        | some saved ↦ (true, saved)
      ]
  unfolding save_credentials delete_old_credentials
  save_credentials-valid e = ground (arith, e)

  save_credentials-invalid :
      is_valid_device_id trimmed id ≡ false → save_credentials trimmed id creds db ≡ (false, db)
  unfolding save_credentials
  save_credentials-invalid e = ground (arith, e)

  module _ (j : List ℕ) where
    -- A credential that was saved, as it is read again: without its code, and with the id of the device.
    abbrev pub as_saved : OathCredential → OathCredential
    as_saved c = record {
      original_name = c.original_name;
      issuer = c.issuer;
      account = c.account;
      code = [];
      valid_until = 0;
      requires_touch = c.requires_touch;
      is_totp = c.type == 2;
      device_id = j;
      digits = c.digits;
      period = c.period;
      algorithm = c.algorithm;
      type = c.type;
    }

    -- What is read for the device `j` after the credentials were saved for the device `id`.
    abbrev pub read_after : List OathCredential
    read_after = if list_eq id j then map as_saved creds else get_cached_credentials trimmed j db

    read-saved :
        is_valid_device_id trimmed id ≡ true
        → get_cached_credentials trimmed j
            (record db { credential_rows = erase id db.credential_rows ++ written id creds })
          ≡ read_after
    unfolding get_cached_credentials
    read-saved valid = elim (Bool-cases (list_eq id j)) [
      | inl e ↦
          let here : is_valid_device_id trimmed j ≡ true =
            subst (λ k. is_valid_device_id trimmed k ≡ true) ((list_eq_iff id j).0 e) valid in
          rw (here, rows_of-saved id j creds db.credential_rows, e)
            (map-map (read_row j) columns creds)
      | inr e ↦ rw (rows_of-saved id j creds db.credential_rows, e) refl
    ]

    -- Saving is all or nothing: either it is refused and the database is as it was, or the devices are
    -- as they were, and the credentials that are then read for this device are those given, in their
    -- order, with every field but the codes and their validity, which are not stored, the device's id,
    -- and the mark for TOTP by the type; for every other device they are those from before.
    pub save_credentials-Saves :
        (save_credentials trimmed id creds db ≡ (false, db))
        ⊎ ((saved : Database) × (save_credentials trimmed id creds db ≡ (true, saved))
            × (saved.device_rows ≡ db.device_rows)
            × (get_cached_credentials trimmed j saved ≡ read_after))
    save_credentials-Saves = elim (Bool-cases (is_valid_device_id trimmed id)) [
      | inr e ↦ inl (save_credentials-invalid e)
      | inl valid ↦ elim (Option-cases (insert_new_credentials id creds cleared)) [
        | inl e ↦ inl (save_credentials-valid valid ∙ rw e refl)
        | inr (saved, e) ↦
            let there = insert_new_credentials-written id creds cleared saved e in
            inr (
              saved,
              save_credentials-valid valid ∙ rw e refl,
              ap (λ (d : Database). d.device_rows) there,
              ap (get_cached_credentials trimmed j) there ∙ read-saved valid,
            )
      ]
    ]
