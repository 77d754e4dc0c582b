-- ===== src/Manager/Connect.antt =====
-- The operations of src/daemon/oath/oath_device_manager.cpp that need PC/SC. A device's destructor
-- closes its card; that it first waits for an update is time only.
use yubikey_oath_krunner.Prelude.{
  ℕ, Bool, true, false, List, [], ◌∷◌, Option, none, some, is_empty, not, ◌==◌, ◌||◌, if◌then◌else◌,
}
use yubikey_oath_krunner.Prelude.Text.{Qt}
use yubikey_oath_krunner.Prelude.Maps.{lookup}
use yubikey_oath_krunner.Version.{no_version}
use yubikey_oath_krunner.NitrokeyModel.{TextSearch, DeviceBrand}
use yubikey_oath_krunner.Brand.{detect_brand}
use yubikey_oath_krunner.Session.{Env, Session, Result, success, error}
use yubikey_oath_krunner.Session.Operations.{select_oath_application}
use yubikey_oath_krunner.Device.{
  Pcsc, SessionClass, Device, DeviceWorld, D, DeviceState, connecting, ready, error_state,
}
use yubikey_oath_krunner.Device
use yubikey_oath_krunner.Device.Reconnect.{new_session}
use yubikey_oath_krunner.Device.Create.{new_device, initialise, store_rate_limit, store_info}
use yubikey_oath_krunner.Manager.{
  Manager, device_state_changed, error_occurred, signal, disconnect_device, enter_device, device_on,
  on_lost_readers, new_readers, get_connected_device_ids, connect_to_device_async,
  remove_device_from_memory,
}

-- PC/SC as the manager sees it: SCardEstablishContext (0 where it fails), SCardReleaseContext, and
-- SCardListReaders, which may fail or find no reader.
pub record Readers (W : Type 0) : Type 0 where
  pub establish_context : W → ℕ × W
  pub release_context : ℕ → W → W
  pub list_readers : ℕ → W → Option (List (List ℕ)) × W
  pub wait : ℕ → W → W

pub record Managed (W : Type 0) : Type 0 where
  pub manager : Manager
  pub world : W

abbrev pub G : Type 0 → Type 0 → Type 0
G W A = Managed W → Option (A × Managed W)

abbrev pub pure : {W A : Type 0} → A → G W A
pure a s = some (a, s)

infixl 5 ◌>>=◌ ◌>>◌
abbrev pub ◌>>=◌ : {W A B : Type 0} → G W A → (A → G W B) → G W B
◌>>=◌ m f s = elim (m s) [ none ↦ none | some (a, s') ↦ f a s' ]

abbrev pub ◌>>◌ : {W B : Type 0} → G W (Unit {0}) → G W B → G W B
m >> k = m >>= λ _. k

abbrev pub get_manager : {W : Type 0} → G W Manager
get_manager s = some (s.manager, s)

abbrev pub modify : {W : Type 0} → (Manager → Manager) → G W (Unit {0})
modify f s = some (tt, record s { manager = f s.manager })

abbrev pub in_world : {W A : Type 0} → (W → A × W) → G W A
in_world f s = let (a, w) = f s.world in some (a, record s { world = w })

-- An operation of a device that is not in the map, which is returned.
abbrev pub in_device : {W : Type 0} → D W (Unit {0}) → Device → G W Device
in_device m d s = elim (m (record { device = d; world = s.world })) [
  | none ↦ none
  | some (_, t) ↦ some (t.device, record s { world = t.world })
]

abbrev pub scard_protocol_t1 : ℕ
scard_protocol_t1 = 2

module _ (env : Env) (pcsc : Pcsc (env.W)) (readers : Readers (env.W))
    (classes : DeviceBrand → SessionClass (env.W)) (search : TextSearch) (qt : Qt) (fuel : ℕ)
    (rate_limit_ms : ℕ) where
  open env use {W}

  abbrev close_handle : ℕ → G W (Unit {0})
  close_handle handle = in_world (λ w. (tt, if handle == 0 then w else pcsc.disconnect handle w))

  unfoldable pub disconnect : List ℕ → G W (Unit {0})
  unfolding disconnect_device
  disconnect device_id = do
    m ← get_manager
    elim (lookup device_id m.devices) [
      | none ↦ pure tt
      | some d ↦ (close_handle d.card_handle >> modify (disconnect_device device_id))
    ]

  -- SELECT in a session of the brand that the reader's name tells: the result and the session.
  unfoldable pub first_select : List ℕ → ℕ → ℕ → G W (Result (List ℕ) × Session)
  first_select reader_name handle protocol s =
      let class = classes (detect_brand search reader_name no_version false) in
      elim (select_oath_application env qt fuel class.parse_select
        (record { session = new_session handle protocol []; world = s.world })) [
          | none ↦ none
          | some (result, t) ↦ some ((result, t.session), record s { world = t.world })
        ]

  -- `createDevice`.
  unfoldable pub create_device : DeviceBrand → Device → G W Device
  create_device brand d =
      in_device
        (Device.◌>>◌ (initialise env (classes brand) qt fuel (store_info search brand))
          (store_rate_limit env (classes brand) qt fuel rate_limit_ms))
        d

  -- `connectToDevice` once SELECT has told the device's id.
  unfoldable pub attach : List ℕ → ℕ → ℕ → List ℕ → Session → G W (List ℕ)
  unfolding disconnect create_device enter_device
  attach reader_name handle protocol challenge session = do
    disconnect session.device_id
    let brand =
        detect_brand search reader_name session.firmware_version
          (not (session.select_serial_number == 0))
    d ← create_device brand (
        new_device session.device_id reader_name handle protocol challenge
          session.requires_password)
    modify (enter_device reader_name session.device_id d)
    pure session.device_id

  unfoldable pub attach_selected : List ℕ → ℕ → ℕ → Result (List ℕ) × Session → G W (List ℕ)
  unfolding attach
  attach_selected reader_name handle protocol (error e, session) = close_handle handle >> pure []
  attach_selected reader_name handle protocol (success challenge, session) =
      if is_empty session.device_id
      then (close_handle handle >> pure [])
      else attach reader_name handle protocol challenge session

  -- The id of the device, or the empty text.
  unfoldable pub connect_to_device : List ℕ → G W (List ℕ)
  unfolding first_select attach_selected
  connect_to_device reader_name = do
    m ← get_manager
    if not m.initialized then pure [] else (do
      connected ← in_world (pcsc.connect scard_protocol_t1 reader_name)
      elim connected [
        | none ↦ pure []
        | some (handle, protocol) ↦ do
          selected ← first_select reader_name handle protocol
          attach_selected reader_name handle protocol selected
      ])

  -- The task that `connectToDeviceAsync` queues.
  unfoldable pub connect_task : List ℕ → G W (Unit {0})
  unfolding connect_to_device
  connect_task reader_name = do
    modify (signal (device_state_changed reader_name connecting))
    device_id ← connect_to_device reader_name
    modify (
        if is_empty device_id
        then signal (device_state_changed reader_name error_state)
        else signal (device_state_changed device_id ready))

  unfoldable pub card_removed : List ℕ → G W (Unit {0})
  unfolding disconnect device_on
  card_removed reader_name = do
    m ← get_manager
    let device_id = device_on reader_name m.devices
    if is_empty device_id then pure tt else disconnect device_id

  -- The device is destroyed, and its card closed, where it is in the map.
  unfoldable pub forget : List ℕ → G W (Unit {0})
  unfolding remove_device_from_memory
  forget device_id = do
    m ← get_manager
    elim (lookup device_id m.devices) [ none ↦ pure tt | some d ↦ close_handle d.card_handle ]
    modify (remove_device_from_memory device_id)

  unfoldable pub disconnect_each : List (List ℕ) → G W (Unit {0})
  disconnect_each [] = pure tt
  disconnect_each (id ∷ ids) = do disconnect id; disconnect_each ids

  unfoldable pub connect_each : List (List ℕ) → G W (Unit {0})
  connect_each [] = pure tt
  connect_each (r ∷ rs) = do device_id ← connect_to_device r; connect_each rs

  -- A failure to list the readers counts as no readers.
  abbrev current_readers : Option (List (List ℕ)) → List (List ℕ)
  current_readers none = []
  current_readers (some found) = found

  unfoldable pub on_reader_list_changed : G W (Unit {0})
  unfolding disconnect_each connect_each on_lost_readers new_readers
  on_reader_list_changed = do
    m ← get_manager
    found ← in_world (readers.list_readers m.context)
    disconnect_each (on_lost_readers (current_readers found) m.devices)
    left ← get_manager
    connect_each (new_readers left.devices (current_readers found))

  unfoldable pub queue_each : List (List ℕ) → Manager → Manager
  unfolding connect_to_device_async
  queue_each [] m = m
  queue_each (r ∷ rs) m = queue_each rs (connect_to_device_async r m)

  unfoldable pub enumerate_and_connect_devices : G W (Unit {0})
  unfolding queue_each
  enumerate_and_connect_devices = do
    m ← get_manager
    if not m.initialized then pure tt else (do
      found ← in_world (readers.list_readers m.context)
      modify (queue_each (current_readers found)))

  -- Whether a context is there.
  unfoldable pub initialize : G W Bool
  initialize = do
    m ← get_manager
    if m.initialized then pure true else (do
      context ← in_world readers.establish_context
      if context == 0
          then (modify (signal error_occurred) >> pure false)
          else (modify (λ m'. record m' { initialized = true; context = context }) >> pure true))

  -- The enumeration that it schedules is `enumerate_and_connect_devices`.
  unfoldable pub start_monitoring : G W (Unit {0})
  start_monitoring = do
    m ← get_manager
    if not m.initialized || m.context == 0
        then pure tt
        else modify (λ m'. record m' { monitoring = true })

  unfoldable pub cleanup : G W (Unit {0})
  unfolding disconnect_each get_connected_device_ids
  cleanup = do
    modify (λ m. record m { monitoring = false })
    m ← get_manager
    disconnect_each (get_connected_device_ids m)
    if not m.initialized then pure tt else (do
      in_world (λ w. (tt, readers.release_context m.context w))
      modify (λ m'. record m' { initialized = false; context = 0 }))

  unfoldable pub close_each : List (List ℕ × Device) → G W (Unit {0})
  close_each [] = pure tt
  close_each ((id, d) ∷ es) = do close_handle d.card_handle; close_each es

  -- All devices go without a signal; then a new context and monitoring. The enumeration that is
  -- scheduled at the end is `enumerate_and_connect_devices`, later.
  unfoldable pub handle_pcsc_service_lost : G W (Unit {0})
  unfolding close_each
  handle_pcsc_service_lost = do
    m ← get_manager
    close_each m.devices
    modify (λ m'. record m' { monitoring = false; devices = []; reader_to_device = [] })
    in_world (λ w. (tt, if m.context == 0 then w else readers.release_context m.context w))
    in_world (λ w. (tt, readers.wait 500 w))
    context ← in_world readers.establish_context
    if context == 0
        then modify (λ m'. signal error_occurred (record m' { context = 0 }))
        else modify (λ m'. record m' { context = context; monitoring = true })
