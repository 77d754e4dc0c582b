-- ===== src/Manager/Kept.antt =====
-- What connecting does to the maps, whatever the card answers.
use yubikey_oath_krunner.Prelude.{
  ℕ, ◌≡◌, ◌≢◌, refl, ◌∙◌, ap, ◌⊎◌, inl, inr, true, false, List, [], Option, none, some, arith,
  Bool-cases, Option-cases, is_empty, not, ◌==◌, subst, sym, list_eq, if◌then◌else◌,
}
use yubikey_oath_krunner.Prelude.Text.{Qt}
use yubikey_oath_krunner.NitrokeyModel.{TextSearch, DeviceBrand}
use yubikey_oath_krunner.Brand.{detect_brand}
use yubikey_oath_krunner.Prelude.Maps.{
  lookup, lookup-insert_self, lookup-insert_other, lookup-erase, lookup-erase_other,
}
use yubikey_oath_krunner.Session.{Env, Session, Result, success, error}
use yubikey_oath_krunner.Session.Fetcher.{ExtendedDeviceInfo}
use yubikey_oath_krunner.Device.{Pcsc, SessionClass, Device}
use yubikey_oath_krunner.Device.Create.{
  new_device, initialise, store_info, store_yubikey_info, store_nitrokey_info, store_rate_limit,
}
use yubikey_oath_krunner.Manager.{Manager, disconnect_device, enter_device}
use yubikey_oath_krunner.Manager.Connect.{
  Readers, Managed, G, pure, ◌>>=◌, ◌>>◌, disconnect, create_device, first_select, attach,
  attach_selected, connect_to_device, modify, scard_protocol_t1,
}

after_none :
    {W A B : Type 0} (o : Option (A × Managed W)) (f : A → G W B) (t : Managed W) (b : B)
    → elim o [ none ↦ none | some (a, u) ↦ f a u ] ≡ some (b, t)
    → (a : A) × (u : Managed W) × (o ≡ some (a, u)) × (f a u ≡ some (b, t))
after_none none f t b h = cc
after_none (some (a, u)) f t b h = (a, u, refl, h)

pub bind-inv :
    {W A B : Type 0} (m : G W A) (f : A → G W B) (s t : Managed W) (b : B)
    → (m >>= f) s ≡ some (b, t)
    → (a : A) × (u : Managed W) × (m s ≡ some (a, u)) × (f a u ≡ some (b, t))
bind-inv m f s t b h = after_none (m s) f t b h

store_info-reader_name :
    (search : TextSearch) (brand : DeviceBrand) (info : Result ExtendedDeviceInfo) (d : Device)
    → (store_info search brand info d).reader_name ≡ d.reader_name
unfolding store_info store_yubikey_info store_nitrokey_info
store_info-reader_name search brand info d = ground arith

module _ (env : Env) (pcsc : Pcsc (env.W)) (readers : Readers (env.W))
    (classes : DeviceBrand → SessionClass (env.W)) (search : TextSearch) (qt : Qt) (fuel : ℕ)
    (rate_limit_ms : ℕ) where
  open env use {W}

  create_device-kept :
      (brand : DeviceBrand) (d d' : Device) (s t : Managed W)
      → create_device env pcsc readers classes search qt fuel rate_limit_ms brand d s ≡ some (d', t)
      → (d'.reader_name ≡ d.reader_name) × (t.manager ≡ s.manager)
  unfolding create_device initialise store_rate_limit
  create_device-kept brand d d' s t h =
      (grind (arith, h, store_info-reader_name), ground (arith, h))

  pub disconnect-manager :
      (id : List ℕ) (s t : Managed W)
      → disconnect env pcsc readers classes search qt fuel rate_limit_ms id s ≡ some (tt, t)
      → t.manager ≡ disconnect_device id s.manager
  unfolding disconnect
  disconnect-manager id s t h = ground (arith, h)

  -- What a connection left of the manager, by its operations: nothing new where it returns no id, and otherwise a new
  -- device on the reader in place of any that had its id.
  abbrev pub Connected : List ℕ → List ℕ → Manager → Manager → Type 0
  Connected reader id m n =
      ((id ≡ []) × (n ≡ m))
      ⊎ ((d : Device) × (d.reader_name ≡ reader)
          × (id ≢ [])
          × (n ≡ enter_device reader id d (disconnect_device id m)))

  attach-Connected :
      (reader challenge : List ℕ) (handle protocol : ℕ) (session : Session) (s t : Managed W)
      (id : List ℕ)
      → attach env pcsc readers classes search qt fuel rate_limit_ms reader handle protocol
          challenge session s
        ≡ some (id, t)
      → is_empty session.device_id ≡ false
      → Connected reader id s.manager t.manager
  unfolding attach new_device
  attach-Connected reader challenge handle protocol session s t id h full =
      let brand =
        detect_brand search reader session.firmware_version
          (not (session.select_serial_number == 0)) in
      let blank =
        new_device session.device_id reader handle protocol challenge session.requires_password in
      let (_, u, gone, h1) =
        bind-inv
          (disconnect env pcsc readers classes search qt fuel rate_limit_ms session.device_id) _ s t
          id h in
      let (d, v, made, h2) =
        bind-inv (create_device env pcsc readers classes search qt fuel rate_limit_ms brand blank)
          (λ d. modify (enter_device reader session.device_id d) >> pure session.device_id) u t id
          h1 in
      let (on, kept) = create_device-kept brand blank d u v made in
      let same : session.device_id ≡ id = ground (arith, h2) in
      let left : t.manager ≡ enter_device reader session.device_id d v.manager =
        ground (arith, h2) in
      inr (
        d,
        on,
        λ e. ground (arith, full, same, e),
        subst (λ k. t.manager ≡ enter_device reader k d (disconnect_device k s.manager)) same
            (left
              ∙ ap (enter_device reader session.device_id d)
                  (kept ∙ disconnect-manager session.device_id s u gone)),
      )

  first_select-manager :
      (reader : List ℕ) (handle protocol : ℕ) (s t : Managed W) (r : Result (List ℕ) × Session)
      → first_select env pcsc readers classes search qt fuel rate_limit_ms reader handle protocol s
        ≡ some (r, t)
      → t.manager ≡ s.manager
  unfolding first_select
  first_select-manager reader handle protocol s t r h = ground (arith, h)

  attach_selected-Connected :
      (reader : List ℕ) (handle protocol : ℕ) (selected : Result (List ℕ) × Session)
      (s t : Managed W) (id : List ℕ)
      → attach_selected env pcsc readers classes search qt fuel rate_limit_ms reader handle protocol
          selected s
        ≡ some (id, t)
      → Connected reader id s.manager t.manager
  unfolding attach_selected
  attach_selected-Connected reader handle protocol (error e, session) s t id h =
      inl (ground (arith, h), ground (arith, h))
  attach_selected-Connected reader handle protocol (success challenge, session) s t id h =
      elim (Bool-cases (is_empty session.device_id)) [
        | inl e ↦ inl (ground (arith, h, e), ground (arith, h, e))
        | inr e ↦
            attach-Connected reader challenge handle protocol session s t id (ground (arith, h, e))
              e
      ]

  connect_to_device-known :
      (reader : List ℕ) (s t : Managed W) (id : List ℕ) (handle protocol : ℕ)
      → connect_to_device env pcsc readers classes search qt fuel rate_limit_ms reader s
        ≡ some (id, t)
      → s.manager.initialized ≡ true
      → (pcsc.connect scard_protocol_t1 reader s.world).0 ≡ some (handle, protocol)
      → Connected reader id s.manager t.manager
  unfolding connect_to_device
  connect_to_device-known reader s t id handle protocol h ready found =
      let opened = record s { world = (pcsc.connect scard_protocol_t1 reader s.world).1 } in
      let (selected, u, ran, h1) =
        bind-inv
          (first_select env pcsc readers classes search qt fuel rate_limit_ms reader handle
            protocol)
          (attach_selected env pcsc readers classes search qt fuel rate_limit_ms reader handle
            protocol)
          opened t id (ground (arith, h, ready, found)) in
      subst (λ m. Connected reader id m t.manager)
        (first_select-manager reader handle protocol opened u selected ran)
        (attach_selected-Connected reader handle protocol selected u t id h1)

  connect_to_device-nothing :
      (reader : List ℕ) (s t : Managed W) (id : List ℕ)
      → connect_to_device env pcsc readers classes search qt fuel rate_limit_ms reader s
        ≡ some (id, t)
      → (s.manager.initialized ≡ false) ⊎ ((pcsc.connect scard_protocol_t1 reader s.world).0 ≡ none)
      → (id ≡ []) × (t.manager ≡ s.manager)
  unfolding connect_to_device
  connect_to_device-nothing reader s t id h (inl e) = (ground (arith, h, e), ground (arith, h, e))
  connect_to_device-nothing reader s t id h (inr e) = (ground (arith, h, e), ground (arith, h, e))

  pub connect_to_device-Connected :
      (reader : List ℕ) (s t : Managed W) (id : List ℕ)
      → connect_to_device env pcsc readers classes search qt fuel rate_limit_ms reader s
        ≡ some (id, t)
      → Connected reader id s.manager t.manager
  connect_to_device-Connected reader s t id h = elim (Bool-cases s.manager.initialized) [
    | inr off ↦ inl (connect_to_device-nothing reader s t id h (inl off))
    | inl on ↦ elim (Option-cases (pcsc.connect scard_protocol_t1 reader s.world).0) [
      | inl e ↦ inl (connect_to_device-nothing reader s t id h (inr e))
      | inr ((handle, protocol), e) ↦ connect_to_device-known reader s t id handle protocol h on e
    ]
  ]

-- The two maps after a connection: the device is there and its reader is in use by it; every other
-- device is as it was, and so is every other reader but the one that a device with the id had before.
pub record Attached (reader id : List ℕ) (d : Device) (m n : Manager) : Type 0 where
  pub on_reader : d.reader_name ≡ reader
  pub there : lookup id n.devices ≡ some d
  pub in_use : lookup reader n.reader_to_device ≡ some id
  pub others : (j : List ℕ) → list_eq id j ≡ false → lookup j n.devices ≡ lookup j m.devices
  pub other_readers :
      (r : List ℕ)
      → list_eq reader r ≡ false
      → lookup r n.reader_to_device ≡ elim (lookup id m.devices) [
        | none ↦ lookup r m.reader_to_device
        | some old ↦ if list_eq old.reader_name r then none else lookup r m.reader_to_device
      ]

disconnect_device-others :
    (id j : List ℕ) (m : Manager)
    → list_eq id j ≡ false
    → lookup j (disconnect_device id m).devices ≡ lookup j m.devices
unfolding disconnect_device
disconnect_device-others id j m h = elim (Option-cases (lookup id m.devices)) [
  | inl e ↦ ground (arith, e)
  | inr (old, e) ↦ ground (arith, e, lookup-erase_other id j m.devices h)
]

disconnect_device-readers :
    (id r : List ℕ) (m : Manager)
    → lookup r (disconnect_device id m).reader_to_device ≡ elim (lookup id m.devices) [
      | none ↦ lookup r m.reader_to_device
      | some old ↦ if list_eq old.reader_name r then none else lookup r m.reader_to_device
    ]
unfolding disconnect_device
disconnect_device-readers id r m = elim (Option-cases (lookup id m.devices)) [
  | inl e ↦ ground (arith, e)
  | inr (old, e) ↦ ground (arith, e, lookup-erase old.reader_name r m.reader_to_device)
]

enter_device-Attached :
    (reader id : List ℕ) (d : Device) (m : Manager)
    → d.reader_name ≡ reader
    → Attached reader id d m (enter_device reader id d (disconnect_device id m))
unfolding enter_device
enter_device-Attached reader id d m on =
    let gone = disconnect_device id m in
    record {
      on_reader = on;
      there = lookup-insert_self id d gone.devices;
      in_use = lookup-insert_self reader id gone.reader_to_device;
      others = λ j h. lookup-insert_other id j d gone.devices h ∙ disconnect_device-others id j m h;
      other_readers = λ r h.
          lookup-insert_other reader r id gone.reader_to_device h
          ∙ disconnect_device-readers id r m;
    }

-- Connecting to a reader, whatever the card answers: either no id is returned and the manager's state is
-- as it was, or the id is not empty, a device on that reader is in the map under it, and the reader is in
-- use by it; every other device is as it was, and so is every other reader, but that a device which had
-- the id before has left its reader.
pub connect_to_device-Attached :
    (env : Env) (pcsc : Pcsc (env.W)) (readers : Readers (env.W))
    (classes : DeviceBrand → SessionClass (env.W)) (search : TextSearch) (qt : Qt)
    (fuel rate_limit_ms : ℕ) (reader : List ℕ) (s t : Managed (env.W)) (id : List ℕ)
    → connect_to_device env pcsc readers classes search qt fuel rate_limit_ms reader s
      ≡ some (id, t)
    → ((id ≡ []) × (t.manager ≡ s.manager))
      ⊎ ((id ≢ []) × (d : Device) × Attached reader id d s.manager t.manager)
connect_to_device-Attached env pcsc readers classes search qt fuel rate_limit_ms reader s t id h =
    elim (connect_to_device-Connected env pcsc readers classes search qt fuel rate_limit_ms reader s
      t id h) [
        | inl (e, same) ↦ inl (e, same)
        | inr (d, on, full, entered) ↦ inr (
          full,
          d,
          subst (λ n. Attached reader id d s.manager n) (sym entered)
              (enter_device-Attached reader id d s.manager on),
        )
      ]
