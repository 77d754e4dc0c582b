-- ===== src/Manager/Forgotten.antt =====
-- The manager after a device is taken out of memory, and after the PC/SC service is lost.
use yubikey_oath_krunner.Prelude.{
  ℕ, ◌≡◌, ◌≢◌, ◌⊎◌, inl, inr, refl, List, [], ◌∷◌, none, some, arith, if◌then◌else◌, ◌==◌,
  Bool-cases, true, false,
}
use yubikey_oath_krunner.Prelude.Maps.{lookup, erase, lookup-erase_self}
use yubikey_oath_krunner.Prelude.Text.{Qt}
use yubikey_oath_krunner.NitrokeyModel.{TextSearch, DeviceBrand}
use yubikey_oath_krunner.Session.{Env}
use yubikey_oath_krunner.Device.{Pcsc, SessionClass, Device}
use yubikey_oath_krunner.Manager.{
  Manager, error_occurred, signal, remove_device_from_memory, on_card_inserted,
}
use yubikey_oath_krunner.Manager.Connect.{Readers, Managed, close_each, handle_pcsc_service_lost}
use yubikey_oath_krunner.Manager.Registry.{IsConsistent}

-- After a connected device is taken out of memory, its id is unknown but its reader still counts as
-- in use, so that a card inserted there again is ignored; the two maps no longer agree.
pub remove_device_from_memory-blocks :
    (id : List ℕ) (d : Device) (m : Manager)
    → IsConsistent m
    → lookup id m.devices ≡ some d
    → (lookup id (remove_device_from_memory id m).devices ≡ none)
      × (on_card_inserted d.reader_name (remove_device_from_memory id m)
          ≡ remove_device_from_memory id m)
      × ¬ IsConsistent (remove_device_from_memory id m)
unfolding remove_device_from_memory on_card_inserted
remove_device_from_memory-blocks id d m i here =
    let gone : lookup id (erase id m.devices) ≡ none = lookup-erase_self id m.devices in
    let kept : lookup d.reader_name m.reader_to_device ≡ some id = i.used id d here in
    (
      gone,
      rw (kept, on_card_inserted) refl,
      λ j. let (d', there, on) = j.known d.reader_name id kept in ground (arith, gone, there),
    )

module _ (env : Env) (pcsc : Pcsc (env.W)) (readers : Readers (env.W))
    (classes : DeviceBrand → SessionClass (env.W)) (search : TextSearch) (qt : Qt) (fuel : ℕ)
    (rate_limit_ms : ℕ) where
  open env use {W}

  close_each-manager :
      (es : List (List ℕ × Device)) (s : Managed W)
      → (w : W) × (close_each env pcsc readers classes search qt fuel rate_limit_ms es s
          ≡ some (tt, record s { world = w }))
  unfolding close_each
  close_each-manager [] s = (s.world, refl)
  close_each-manager ((id, d) ∷ es) s =
      let next = if d.card_handle == 0 then s.world else pcsc.disconnect d.card_handle s.world in
      close_each-manager es (record s { world = next })

  -- When the PC/SC service is lost, the manager always finishes with no device and no reader in use;
  -- it signals no disconnection of a device that it had, and an error only where no new context is
  -- given.
  pub handle_pcsc_service_lost-silent :
      (s : Managed W)
      → (t : Managed W) × (handle_pcsc_service_lost env pcsc readers classes search qt fuel
            rate_limit_ms s
          ≡ some (tt, t))
        × (t.manager.devices ≡ [])
        × (t.manager.reader_to_device ≡ [])
        × (((t.manager.context ≡ 0) × (t.manager.signals ≡ error_occurred ∷ s.manager.signals))
            ⊎ ((t.manager.context ≢ 0) × (t.manager.signals ≡ s.manager.signals)))
  unfolding handle_pcsc_service_lost
  handle_pcsc_service_lost-silent s =
      let (w, closed) = close_each-manager s.manager.devices s in
      let w1 = if s.manager.context == 0 then w else readers.release_context s.manager.context w in
      let (context, w2) = readers.establish_context (readers.wait 500 w1) in
      let left = record s.manager { monitoring = false; devices = []; reader_to_device = [] } in
      elim (Bool-cases (context == 0)) [
        | inl e ↦ (
          record { manager = signal error_occurred (record left { context = 0 }); world = w2 },
          ground (arith, closed, e),
          refl,
          refl,
          inl (refl, refl),
        )
        | inr e ↦ (
          record { manager = record left { context = context; monitoring = true }; world = w2 },
          ground (arith, closed, e),
          refl,
          refl,
          inr (ground (arith, e), refl),
        )
      ]
