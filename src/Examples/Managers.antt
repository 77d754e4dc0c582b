-- ===== src/Examples/Managers.antt =====
-- Examples of the manager with one reader, whose card answers SELECT only.
use yubikey_oath_krunner.Prelude.{
  ℕ, ◌≡◌, ◌≢◌, refl, true, false, List, [], ◌∷◌, none, some, arith, list_eq, ◌⊎◌,
}
use yubikey_oath_krunner.Prelude.Text.{codes}
use yubikey_oath_krunner.Session.{received, error_occurred}
use yubikey_oath_krunner.Version.{no_version}
use yubikey_oath_krunner.Prelude.Maps.{lookup}
use yubikey_oath_krunner.NitrokeyModel.{DeviceBrand, yubikey}
use yubikey_oath_krunner.Device.{SessionClass, Device, disconnected}
use yubikey_oath_krunner.Session.Transport.{
  set_rate_limit_ms, transmit_apdu, rate_limit, stamp, chain_loop, send_retrying, send_apdu,
}
use yubikey_oath_krunner.Session.Fetcher.{
  try_management_api, try_otp_api, try_piv_api, try_oath_select_only, fallbacks,
  get_extended_device_info,
}
use yubikey_oath_krunner.Device.Create.{
  new_device, store_yubikey_info, initialise, store_rate_limit, store_info,
}
use yubikey_oath_krunner.Brand.{detect_brand}
use yubikey_oath_krunner.Model.{detect_yubikey_model}
use yubikey_oath_krunner.Status.{payload}
use yubikey_oath_krunner.Prelude.Maps.{insert}
use yubikey_oath_krunner.Session.Operations.{select_oath_application, store_select}
use yubikey_oath_krunner.Examples.Models.{holds}
use yubikey_oath_krunner.Manager
use yubikey_oath_krunner.Manager.{device_connected, remove_device_from_memory, on_card_inserted}
use yubikey_oath_krunner.Manager.Registry.{IsConsistent}
use yubikey_oath_krunner.Manager.Kept.{Attached, connect_to_device-Attached}
use yubikey_oath_krunner.Manager.History.{Event, connects, Shows, Event-Shows}
use yubikey_oath_krunner.Manager.Forgotten.{
  remove_device_from_memory-blocks, handle_pcsc_service_lost-silent,
}
use yubikey_oath_krunner.Manager.Connect.{
  Readers, Managed, connect_to_device, handle_pcsc_service_lost,
}
use yubikey_oath_krunner.Examples.Data.{Script, scripted, ascii}
use yubikey_oath_krunner.Examples.Models.{search}
use yubikey_oath_krunner.Examples.Devices.{pcsc, class}

abbrev readers : Readers Script
readers = record {
  establish_context = λ s. (1, s);
  release_context = λ context s. s;
  list_readers = λ context s. (some (codes "r" ∷ []), s);
  wait = λ ms s. s;
}

abbrev classes : DeviceBrand → SessionClass Script
classes brand = class

abbrev empty : Managed Script
empty = record {
  manager = record {
    initialized = true;
    context = 1;
    monitoring = true;
    devices = [];
    reader_to_device = [];
    tasks = [];
    signals = [];
  };
  world = record { replies = received (0x90 ∷ 0x00 ∷ []) ∷ []; reconnects = [] };
}

abbrev id : List ℕ
id = codes "42"

abbrev device : Device
device = record {
  device_id = id;
  reader_name = codes "r";
  card_handle = 5;
  protocol = 1;
  challenge = [];
  requires_password = false;
  firmware_version = no_version;
  device_model = record {
    brand = yubikey;
    model_code = 0;
    model_string = codes "Unknown YubiKey";
    form_factor = 0;
    capabilities = [];
  };
  serial_number = 0;
  form_factor = 0;
  state = disconnected;
  last_error = [];
  password = [];
  credentials = [];
  update_in_progress = false;
  updates = [];
  session = record {
    card_handle = 5;
    protocol = 1;
    device_id = id;
    firmware_version = no_version;
    select_serial_number = 0;
    requires_password = false;
    last_operation_ms = 5000;
    rate_limit_ms = 50;
    events =
        error_occurred ∷ error_occurred ∷ error_occurred ∷ error_occurred ∷ error_occurred ∷ [];
  };
  signals = [];
}

-- The manager after it connected to the reader.
abbrev one : Managed Script
one = record {
  manager = record (empty.manager) {
    devices = (id, device) ∷ [];
    reader_to_device = (codes "r", id) ∷ [];
    signals = device_connected id ∷ [];
  };
  world = record { replies = []; reconnects = [] };
}

connected :
    connect_to_device scripted pcsc readers classes search ascii 1 50 (codes "r") empty
    ≡ some (id, one)
unfolding set_rate_limit_ms transmit_apdu rate_limit stamp chain_loop send_retrying send_apdu
    try_management_api try_otp_api try_piv_api try_oath_select_only fallbacks
    get_extended_device_info new_device store_yubikey_info initialise store_rate_limit store_info
    detect_brand detect_yubikey_model payload lookup insert select_oath_application store_select
    holds connect_to_device
connected = refl

connect_to_device-Attached_example :
    ((id ≡ []) × (one.manager ≡ empty.manager))
    ⊎ ((id ≢ []) × (d : Device) × Attached (codes "r") id d empty.manager one.manager)
connect_to_device-Attached_example =
    connect_to_device-Attached scripted pcsc readers classes search ascii 1 50 (codes "r") empty one
      id connected

empty-IsConsistent : IsConsistent empty.manager
unfolding lookup
empty-IsConsistent = record {
  known = λ r j h. ground (arith, h);
  used = λ j d h. ground (arith, h);
}

connection : Event scripted pcsc readers classes search ascii 1 50 empty one
unfolding lookup
connection = connects (codes "r") id empty one connected refl

Event-Shows_example :
    Shows scripted pcsc readers classes search ascii 1 50 empty.manager one.manager
Event-Shows_example =
    Event-Shows scripted pcsc readers classes search ascii 1 50 empty one empty-IsConsistent
      connection

one-IsConsistent : IsConsistent one.manager
one-IsConsistent =
    (Event-Shows scripted pcsc readers classes search ascii 1 50 empty one empty-IsConsistent
      connection).0

remove_device_from_memory-blocks_example :
    (lookup id (remove_device_from_memory id one.manager).devices ≡ none)
    × (on_card_inserted (codes "r") (remove_device_from_memory id one.manager)
        ≡ remove_device_from_memory id one.manager)
    × ¬ IsConsistent (remove_device_from_memory id one.manager)
unfolding lookup list_eq
remove_device_from_memory-blocks_example =
    remove_device_from_memory-blocks id device one.manager one-IsConsistent refl

handle_pcsc_service_lost-silent_example :
    (t : Managed Script) × (handle_pcsc_service_lost scripted pcsc readers classes search ascii 1 50
        one
      ≡ some (tt, t))
    × (t.manager.devices ≡ [])
    × (t.manager.reader_to_device ≡ [])
    × (((t.manager.context ≡ 0)
          × (t.manager.signals ≡ Manager.error_occurred ∷ one.manager.signals))
        ⊎ ((t.manager.context ≢ 0) × (t.manager.signals ≡ one.manager.signals)))
handle_pcsc_service_lost-silent_example =
    handle_pcsc_service_lost-silent scripted pcsc readers classes search ascii 1 50 one
