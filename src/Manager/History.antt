-- ===== src/Manager/History.antt =====
-- The events of the manager in any order, against the view of who is plugged in where.
use mathlib.Core.Path.{fun_ext}
use yubikey_oath_krunner.Prelude.{
  ℕ, ◌≡◌, ◌≢◌, sym, ◌∙◌, ap, inl, inr, List, [], none, some, arith, Bool-cases, is_empty, subst,
}
use yubikey_oath_krunner.Prelude.Text.{Qt}
use yubikey_oath_krunner.Prelude.Maps.{lookup}
use yubikey_oath_krunner.NitrokeyModel.{TextSearch, DeviceBrand}
use yubikey_oath_krunner.Session.{Env}
use yubikey_oath_krunner.Device.{Pcsc, SessionClass, Device}
use yubikey_oath_krunner.Manager.{
  Manager, disconnect_device, enter_device, on_card_inserted, connect_to_device_async, device_on,
}
use yubikey_oath_krunner.Manager.Registry.{
  IsConsistent, disconnect_device-IsConsistent, disconnect_device-gone, enter_device-IsConsistent,
}
use yubikey_oath_krunner.Manager.Forgotten.{handle_pcsc_service_lost-silent}
use yubikey_oath_krunner.Manager.Connect.{
  Readers, Managed, handle_pcsc_service_lost, disconnect, connect_to_device, card_removed,
}
use yubikey_oath_krunner.Manager.Kept.{Connected, connect_to_device-Connected, disconnect-manager}
use yubikey_oath_krunner.Manager.Events.{
  Plugged, plugged, unplug, plug, disconnect_device-at, enter_device-at,
}

-- What an event may do to who is plugged in where: nothing, an id goes, all go, or an id comes to a
-- free reader, from which and from any other it has gone before.
pub data Change : Plugged → Plugged → Type 0 where
  stays : (p : Plugged) → Change p p
  goes : (id : List ℕ) (p : Plugged) → Change p (unplug id p)
  all_go : (p : Plugged) → Change p (λ reader. none)
  comes :
      (reader id : List ℕ) (p : Plugged)
      → id ≢ []
      → unplug id p reader ≡ none
      → Change p (plug reader id (unplug id p))

pub disconnect_device-plugged :
    (id : List ℕ) (m : Manager)
    → IsConsistent m
    → plugged (disconnect_device id m) ≡ unplug id (plugged m)
disconnect_device-plugged id m i = fun_ext λ r. disconnect_device-at id m i r

pub enter_device-plugged :
    (reader id : List ℕ) (d : Device) (m : Manager)
    → plugged (enter_device reader id d m) ≡ plug reader id (plugged m)
enter_device-plugged reader id d m = fun_ext λ r. enter_device-at reader id d m r

module _ (env : Env) (pcsc : Pcsc (env.W)) (readers : Readers (env.W))
    (classes : DeviceBrand → SessionClass (env.W)) (search : TextSearch) (qt : Qt) (fuel : ℕ)
    (rate_limit_ms : ℕ) where
  open env use {W}

  -- A connection, a disconnection, a card that comes or goes, the loss of the PC/SC service, and what
  -- touches neither map. A connection is to a reader that is not in use by another device. The others of
  -- the manager's operations are made of these, save `removeDeviceFromMemory`.
  pub data Event : Managed W → Managed W → Type 0 where
    connects :
        (reader id : List ℕ) (s t : Managed W)
        → connect_to_device env pcsc readers classes search qt fuel rate_limit_ms reader s
          ≡ some (id, t)
        → unplug id (plugged s.manager) reader ≡ none
        → Event s t
    disconnects :
        (id : List ℕ) (s t : Managed W)
        → disconnect env pcsc readers classes search qt fuel rate_limit_ms id s ≡ some (tt, t)
        → Event s t
    card_goes :
        (reader : List ℕ) (s t : Managed W)
        → card_removed env pcsc readers classes search qt fuel rate_limit_ms reader s ≡ some (tt, t)
        → Event s t
    card_comes :
        (reader : List ℕ) (s : Managed W)
        → Event s (record s { manager = on_card_inserted reader s.manager })
    service_lost :
        (s t : Managed W)
        → handle_pcsc_service_lost env pcsc readers classes search qt fuel rate_limit_ms s
          ≡ some (tt, t)
        → Event s t
    elsewhere :
        (s t : Managed W)
        → t.manager.devices ≡ s.manager.devices
        → t.manager.reader_to_device ≡ s.manager.reader_to_device
        → Event s t

  pub data Events : Managed W → Managed W → Type 0 where
    no_event : (s : Managed W) → Events s s
    and_then : (s t u : Managed W) → Events s t → Event t u → Events s u

  -- What an event keeps and how it shows.
  abbrev pub Shows : Manager → Manager → Type 0
  Shows m n = IsConsistent n × Change (plugged m) (plugged n)

  same_maps :
      (m n : Manager)
      → IsConsistent m
      → n.devices ≡ m.devices
      → n.reader_to_device ≡ m.reader_to_device
      → Shows m n
  same_maps m n i e e' = (
    record {
      known = λ r id h.
          subst (λ ds. (d : Device) × (lookup id ds ≡ some d) × (d.reader_name ≡ r)) (sym e)
            (i.known r id (subst (λ rs. lookup r rs ≡ some id) e' h));
      used = λ id d h.
          subst (λ rs. lookup d.reader_name rs ≡ some id) (sym e')
            (i.used id d (subst (λ ds. lookup id ds ≡ some d) e h));
    },
    subst (λ p. Change (plugged m) p) (fun_ext λ r. ap (lookup r) (sym e')) (stays (plugged m)),
  )

  disconnected : (id : List ℕ) (m : Manager) → IsConsistent m → Shows m (disconnect_device id m)
  disconnected id m i = (
    disconnect_device-IsConsistent id m i,
    subst (λ p. Change (plugged m) p) (sym (disconnect_device-plugged id m i))
        (goes id (plugged m)),
  )

  Connected-Shows :
      (reader id : List ℕ) (m n : Manager)
      → IsConsistent m
      → unplug id (plugged m) reader ≡ none
      → Connected env pcsc readers classes search qt fuel rate_limit_ms reader id m n
      → Shows m n
  Connected-Shows reader id m n i free (inl (e, same)) =
      subst (λ k. Shows m k) (sym same) (i, stays (plugged m))
  Connected-Shows reader id m n i free (inr (d, on, full, entered)) =
      let gone = disconnect_device id m in
      let at : plugged gone reader ≡ none =
        ap (λ p. p reader) (disconnect_device-plugged id m i) ∙ free in
      subst (λ k. Shows m k) (sym entered)
        (
          enter_device-IsConsistent reader id d gone (disconnect_device-IsConsistent id m i) on
              (disconnect_device-gone id m) at,
          subst (λ p. Change (plugged m) p)
              (sym (
                enter_device-plugged reader id d gone
                ∙ ap (plug reader id) (disconnect_device-plugged id m i)))
              (comes reader id (plugged m) full free),
        )

  on_card_inserted-Shows :
      (reader : List ℕ) (m : Manager) → IsConsistent m → Shows m (on_card_inserted reader m)
  unfolding on_card_inserted connect_to_device_async
  on_card_inserted-Shows reader m i =
      same_maps m (on_card_inserted reader m) i (ground arith) (ground arith)

  disconnect-Shows :
      (id : List ℕ) (s t : Managed W)
      → IsConsistent s.manager
      → disconnect env pcsc readers classes search qt fuel rate_limit_ms id s ≡ some (tt, t)
      → Shows s.manager t.manager
  disconnect-Shows id s t i h =
      subst (λ n. Shows s.manager n)
        (sym (disconnect-manager env pcsc readers classes search qt fuel rate_limit_ms id s t h))
        (disconnected id s.manager i)

  card_removed-Shows :
      (reader : List ℕ) (s t : Managed W)
      → IsConsistent s.manager
      → card_removed env pcsc readers classes search qt fuel rate_limit_ms reader s ≡ some (tt, t)
      → Shows s.manager t.manager
  unfolding card_removed
  card_removed-Shows reader s t i h =
      let id = device_on reader s.manager.devices in
      elim (Bool-cases (is_empty id)) [
        | inl e ↦ same_maps s.manager t.manager i (ground (arith, h, e)) (ground (arith, h, e))
        | inr e ↦ disconnect-Shows id s t i (ground (arith, h, e))
      ]

  lost_maps :
      (s t : Managed W)
      → handle_pcsc_service_lost env pcsc readers classes search qt fuel rate_limit_ms s
        ≡ some (tt, t)
      → (t.manager.devices ≡ []) × (t.manager.reader_to_device ≡ [])
  lost_maps s t h =
      let (u, ran, devices, used, _) =
        handle_pcsc_service_lost-silent env pcsc readers classes search qt fuel rate_limit_ms s in
      let same : u ≡ t = ground (arith, h, ran) in
      subst (λ (x : Managed W). (x.manager.devices ≡ []) × (x.manager.reader_to_device ≡ [])) same
        (devices, used)

  empty_maps : (m n : Manager) → n.devices ≡ [] → n.reader_to_device ≡ [] → Shows m n
  unfolding lookup
  empty_maps m n e e' = (
    record {
      known = λ r id h. absurd (ground (arith, h, e'));
      used = λ id d h. absurd (ground (arith, h, e));
    },
    subst (λ p. Change (plugged m) p) (fun_ext λ r. sym (ap (lookup r) e')) (all_go (plugged m)),
  )

  -- If the two maps of the manager agree before a connection to a free reader, a disconnection, the
  -- coming or going of a card, the loss of the PC/SC service, or a step that touches neither map, they
  -- agree after it; and what it did to them is one change of who is plugged in where: nothing, one
  -- device goes, all go, or one comes to the free reader and has left any other.
  pub Event-Shows :
      (s t : Managed W) → IsConsistent s.manager → Event s t → Shows s.manager t.manager
  Event-Shows s t i (connects reader id _ _ h free) =
      Connected-Shows reader id s.manager t.manager i free (
        connect_to_device-Connected env pcsc readers classes search qt fuel rate_limit_ms reader s t
          id h)
  Event-Shows s t i (disconnects id _ _ h) = disconnect-Shows id s t i h
  Event-Shows s t i (card_goes reader _ _ h) = card_removed-Shows reader s t i h
  Event-Shows s t i (card_comes reader _) = on_card_inserted-Shows reader s.manager i
  Event-Shows s t i (service_lost _ _ h) =
      let (devices, used) = lost_maps s t h in empty_maps s.manager t.manager devices used
  Event-Shows s t i (elsewhere _ _ e e') = same_maps s.manager t.manager i e e'

  -- The two maps agree after any events from a manager in which they agree: a reader is in use by a
  -- device exactly if the device is there and on that reader.
  pub Events-IsConsistent :
      (s t : Managed W) → IsConsistent s.manager → Events s t → IsConsistent t.manager
  Events-IsConsistent s t i (no_event _) = i
  Events-IsConsistent s u i (and_then _ t _ before e) =
      (Event-Shows t u (Events-IsConsistent s t i before) e).0
