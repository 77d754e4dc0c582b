-- ===== src/Services.antt =====
-- src/daemon/services: the services that stand on the manager and the database. The state of
-- device_lifecycle_service.h and what it needs of KWallet, with device_name_formatter.h and
-- device_name_formatter.cpp of src/shared/utils.
pub mod Devices
pub mod Renamed
pub mod Credentials
pub mod Passwords
pub mod Codes
use yubikey_oath_krunner.Prelude.{
  ℕ, Bool, true, false, List, [], ◌∷◌, ◌++◌, Option, none, some, ◌+◌, ◌-◌, ◌==◌, ◌||◌, ltb, length,
  drop, is_empty, list_eq, if◌then◌else◌,
}
use yubikey_oath_krunner.Prelude.Text.{Qt, codes}
use yubikey_oath_krunner.Prelude.Maps.{lookup, insert}
use yubikey_oath_krunner.NitrokeyModel.{DeviceModel, DeviceBrand, unknown_brand, yubikey, nitrokey}
use yubikey_oath_krunner.Device.{Device}
use yubikey_oath_krunner.Manager.{Manager}
use yubikey_oath_krunner.Storage.{Database, get_device_row, count_devices_with_name_prefix}

-- SecretStorage over KWallet: whether a password was saved, the removal, and the password of a
-- device, empty where there is none.
pub record SecretStorage (W : Type 0) : Type 0 where
  pub save_secret_of : List ℕ → List ℕ → W → Bool × W
  pub remove_secret : List ℕ → W → W
  pub load_secret : List ℕ → W → List ℕ × W

-- What SQL and Qt do with texts: LIKE of a pattern and a text, and QString::trimmed.
pub record Texts : Type 0 where
  pub qt : Qt
  pub like : List ℕ → List ℕ → Bool
  pub trimmed : List ℕ → List ℕ

pub data ServiceSignal : Type 0 where
  device_connected device_disconnected : List ℕ → ServiceSignal

-- `forgotten` has the times of `forgetDevice` in milliseconds, `loads` the devices whose password is
-- being loaded. Signals are kept with the last one first.
pub record Service (W : Type 0) : Type 0 where
  pub manager : Manager
  pub database : Database
  pub world : W
  pub forgotten : List (List ℕ × ℕ)
  pub loads : List (List ℕ)
  pub signals : List ServiceSignal

-- A method of the device with the id, where it is connected.
abbrev pub on_device : (Device → Device) → List ℕ → Manager → Manager
on_device f device_id m = elim (lookup device_id m.devices) [
  | none ↦ m
  | some d ↦ record m { devices = insert device_id (f d) m.devices }
]

-- The name from the last 8 characters of the id.
unfoldable pub default_name : List ℕ → List ℕ
default_name device_id =
    if ltb 8 (length device_id)
    then codes "YubiKey (..." ++ (drop (length device_id - 8) device_id ++ codes ")")
    else codes "YubiKey (" ++ (device_id ++ codes ")")

abbrev pub is_unknown : DeviceBrand → Bool
is_unknown unknown_brand = true
is_unknown yubikey = false
is_unknown nitrokey = false

unfoldable pub generate_default_name : Texts → List ℕ → DeviceModel → ℕ → Database → List ℕ
unfolding default_name list_eq
generate_default_name t device_id model serial db =
    let count = count_devices_with_name_prefix t.like model.model_string db in
    if is_unknown model.brand
    then default_name device_id
    else if is_empty model.model_string || list_eq model.model_string (codes "Unknown")
    then default_name device_id
    else if ltb 0 serial
    then model.model_string ++ (codes " - " ++ t.qt.number serial)
    else if count == 0
    then model.model_string
    else model.model_string ++ (codes " " ++ t.qt.number (count + 1))

unfoldable pub get_device_display_name : Texts → List ℕ → Database → List ℕ
unfolding default_name
get_device_display_name t device_id db = elim (get_device_row t.trimmed device_id db) [
  | none ↦ default_name device_id
  | some row ↦ if is_empty row.device_name then default_name device_id else row.device_name
]
