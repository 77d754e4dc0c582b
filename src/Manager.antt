-- ===== src/Manager.antt =====
-- src/daemon/oath/oath_device_manager.h and oath_device_manager.cpp: the devices by id, the readers
-- in use, and the operations on these two maps. `Manager.Connect` has what needs a card.
pub mod Registry
pub mod Connect
pub mod Events
pub mod Kept
pub mod Forgotten
pub mod History
use yubikey_oath_krunner.Prelude.{
  ℕ, Bool, true, false, List, [], ◌∷◌, ◌++◌, map, Option, none, some, is_empty, list_eq,
  if◌then◌else◌,
}
use yubikey_oath_krunner.Prelude.Maps.{lookup, insert, erase}
use yubikey_oath_krunner.Credential.{OathCredential}
use yubikey_oath_krunner.Device.{Device, DeviceState}

-- The signals of the manager.
pub data ManagerSignal : Type 0 where
  device_connected device_disconnected device_forgotten : List ℕ → ManagerSignal
  credentials_changed error_occurred : ManagerSignal
  device_state_changed : List ℕ → DeviceState → ManagerSignal

-- `context` is 0 where there is none. `tasks` are the readers that connectToDeviceAsync has queued.
-- Signals are kept with the last one first.
pub record Manager : Type 0 where
  pub initialized : Bool
  pub context : ℕ
  pub monitoring : Bool
  pub devices : List (List ℕ × Device)
  pub reader_to_device : List (List ℕ × List ℕ)
  pub tasks : List (List ℕ)
  pub signals : List ManagerSignal

abbrev pub signal : ManagerSignal → Manager → Manager
signal s m = record m { signals = s ∷ m.signals }

unfoldable pub get_device : List ℕ → Manager → Option Device
get_device device_id m = lookup device_id m.devices

abbrev pub has_device : List ℕ → Manager → Bool
has_device device_id m = elim (lookup device_id m.devices) [ none ↦ false | some d ↦ true ]

unfoldable pub has_connected_devices : Manager → Bool
has_connected_devices m = elim (m.devices) [ [] ↦ false | e ∷ es ↦ true ]

unfoldable pub get_connected_device_ids : Manager → List (List ℕ)
get_connected_device_ids m = map (λ e. e.0) m.devices

unfoldable pub get_device_or_first : List ℕ → Manager → Option Device
unfolding get_connected_device_ids get_device
get_device_or_first device_id m =
    if is_empty device_id
    then elim (get_connected_device_ids m) [ [] ↦ none | id ∷ ids ↦ get_device id m ]
    else get_device device_id m

-- The credentials of all devices that are not being updated.
unfoldable pub aggregate : List (List ℕ × Device) → List OathCredential
aggregate [] = []
aggregate ((id, d) ∷ es) =
    if d.update_in_progress then aggregate es else d.credentials ++ aggregate es

unfoldable pub get_credentials : Manager → List OathCredential
unfolding aggregate
get_credentials m = aggregate m.devices

-- Both maps without the device, as `disconnectDevice` leaves them.
abbrev pub without_device : List ℕ → Device → Manager → Manager
without_device device_id d m = record m {
  devices = erase device_id m.devices;
  reader_to_device = erase d.reader_name m.reader_to_device;
}

unfoldable pub disconnect_device : List ℕ → Manager → Manager
disconnect_device device_id m = elim (lookup device_id m.devices) [
  | none ↦ m
  | some d ↦
      signal credentials_changed
        (signal (device_disconnected device_id) (without_device device_id d m))
]

-- The device is taken out of the first map only.
unfoldable pub remove_device_from_memory : List ℕ → Manager → Manager
remove_device_from_memory device_id m =
    signal credentials_changed
      (signal (device_forgotten device_id) (record m { devices = erase device_id m.devices }))

-- The end of `connectToDevice`: the new device is entered, then the signal, then its reader.
unfoldable pub enter_device : List ℕ → List ℕ → Device → Manager → Manager
enter_device reader_name device_id d m =
    let entered =
      signal (device_connected device_id) (record m { devices = insert device_id d m.devices }) in
    record entered { reader_to_device = insert reader_name device_id entered.reader_to_device }

unfoldable pub connect_to_device_async : List ℕ → Manager → Manager
connect_to_device_async reader_name m = record m { tasks = m.tasks ++ reader_name ∷ [] }

unfoldable pub on_card_inserted : List ℕ → Manager → Manager
unfolding connect_to_device_async
on_card_inserted reader_name m = elim (lookup reader_name m.reader_to_device) [
  | some device_id ↦ m
  | none ↦ connect_to_device_async reader_name m
]

-- The id of the first device on a reader, or the empty text.
unfoldable pub device_on : List ℕ → List (List ℕ × Device) → List ℕ
device_on reader_name [] = []
device_on reader_name ((id, d) ∷ es) =
    if list_eq d.reader_name reader_name then id else device_on reader_name es

unfoldable pub on_card_removed : List ℕ → Manager → Manager
unfolding device_on disconnect_device
on_card_removed reader_name m =
    let device_id = device_on reader_name m.devices in
    if is_empty device_id then m else disconnect_device device_id m

unfoldable pub on_credential_cache_fetched : List ℕ → List OathCredential → Manager → Manager
on_credential_cache_fetched device_id credentials m = signal credentials_changed m

abbrev pub contains_text : List ℕ → List (List ℕ) → Bool
contains_text t [] = false
contains_text t (u ∷ us) = if list_eq u t then true else contains_text t us

-- The ids of the devices whose readers are gone.
unfoldable pub on_lost_readers : List (List ℕ) → List (List ℕ × Device) → List (List ℕ)
on_lost_readers readers [] = []
on_lost_readers readers ((id, d) ∷ es) =
    if contains_text d.reader_name readers
    then on_lost_readers readers es
    else id ∷ on_lost_readers readers es

unfoldable pub disconnect_all : List (List ℕ) → Manager → Manager
unfolding disconnect_device
disconnect_all [] m = m
disconnect_all (id ∷ ids) m = disconnect_all ids (disconnect_device id m)

-- The readers among the current ones that no device is on.
unfoldable pub new_readers : List (List ℕ × Device) → List (List ℕ) → List (List ℕ)
new_readers devices [] = []
new_readers devices (r ∷ rs) =
    if contains_text r (map (λ e. e.1.reader_name) devices)
    then new_readers devices rs
    else r ∷ new_readers devices rs
