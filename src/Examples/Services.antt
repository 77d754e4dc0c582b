-- ===== src/Examples/Services.antt =====
-- Examples of the database and of the services.
use yubikey_oath_krunner.Prelude.{
  ℕ, ◌≡◌, ◌≤◌, ◌<◌, ◌+◌, ◌-◌, ◌/◌, refl, true, false, List, [], ◌∷◌, none, some, arith, ◌⊎◌,
  list_eq,
}
use yubikey_oath_krunner.Prelude.Text.{codes}
use yubikey_oath_krunner.Prelude.Maps.{lookup}
use yubikey_oath_krunner.NitrokeyModel.{yubikey}
use yubikey_oath_krunner.Device.{Device}
use yubikey_oath_krunner.Manager.{Manager, get_device, contains_text}
use yubikey_oath_krunner.Storage.{
  DeviceRow, Database, save_credentials, get_device_row, rows_of, is_valid_device_id, all_hex,
  update_valid, update_device_name, is_stored, get_cached_credentials,
}
use yubikey_oath_krunner.Storage.Saved.{save_credentials-Saves, read_after}
use yubikey_oath_krunner.Services.{SecretStorage, Texts, Service, get_device_display_name}
use yubikey_oath_krunner.Services.Devices.{on_device_connected, set_device_name}
use yubikey_oath_krunner.Services.Renamed.{
  with_name, model_and_serial, set_device_name-lost, after_forget, forget_device-stays,
}
use yubikey_oath_krunner.Services.Codes.{
  CachedCode, CodeService, code_generated, told, cache_key, clear_cache_for_device,
  generate_code_async,
}
use yubikey_oath_krunner.Services.Codes.Fresh.{
  Asks, no_slash, generate_code_async-fresh, clear_cache_for_device-exact,
  generate_code_async-twice,
}
use yubikey_oath_krunner.Examples.Data.{Script, ascii}
use yubikey_oath_krunner.Examples.Devices
use yubikey_oath_krunner.Examples.Devices.{known}

abbrev pub same_text : List ℕ → List ℕ
same_text text = text

abbrev pub id : List ℕ
id = codes "28b5c0b54ccb10db"

abbrev pub row : DeviceRow
row = record {
  device_name = codes "key";
  requires_password = false;
  last_seen = 1;
  created_at = 1;
  firmware_text = codes "5.4.3";
  device_model = 0;
  serial_number = 7;
  form_factor = 1;
}

abbrev pub db : Database
db = record { device_rows = (id, row) ∷ []; credential_rows = [] }

save_credentials-Saves_example :
    (save_credentials same_text id (known ∷ []) db ≡ (false, db))
    ⊎ ((saved : Database) × (save_credentials same_text id (known ∷ []) db ≡ (true, saved))
        × (saved.device_rows ≡ (id, row) ∷ [])
        × (get_cached_credentials same_text id saved ≡ read_after same_text id (known ∷ []) db id))
save_credentials-Saves_example = save_credentials-Saves same_text id (known ∷ []) db id

abbrev pub texts : Texts
texts = record { qt = ascii; like = λ pattern text. list_eq pattern text; trimmed = same_text }

abbrev pub device : Device
device = record (Devices.device) {
  device_model = record {
    brand = yubikey;
    model_code = 1;
    model_string = codes "YubiKey 5";
    form_factor = 1;
    capabilities = [];
  };
  serial_number = 7;
}

abbrev pub manager : Manager
manager = record {
  initialized = true;
  context = 1;
  monitoring = true;
  devices = (id, device) ∷ [];
  reader_to_device = (codes "r", id) ∷ [];
  tasks = [];
  signals = [];
}

abbrev service : Service Script
service = record {
  manager = manager;
  database = db;
  world = (Devices.on_card device).world;
  forgotten = [];
  loads = [];
  signals = [];
}

id-valid : is_valid_device_id same_text id ≡ true
unfolding is_valid_device_id all_hex
id-valid = refl

name_accepted : (set_device_name texts id (codes "work") db).0 ≡ true
unfolding set_device_name is_stored get_device_row is_valid_device_id all_hex update_device_name
    update_valid lookup list_eq
name_accepted = refl

device_there : lookup id manager.devices ≡ some device
unfolding lookup list_eq
device_there = refl

none_forgotten : lookup id service.forgotten ≡ none
unfolding lookup
none_forgotten = refl

set_device_name-lost_example :
    get_device_display_name texts id
      (on_device_connected texts 0 2 id
        (with_name texts id device 0 2 (codes "work") service)).database
    ≡ model_and_serial texts id device
unfolding list_eq
set_device_name-lost_example =
    set_device_name-lost texts id device 0 2 (codes "work") service name_accepted device_there
      none_forgotten (refl, refl, refl, omega arith)

abbrev pub secrets : SecretStorage Script
secrets = record {
  save_secret_of = λ password device_id s. (true, s);
  remove_secret = λ device_id s. s;
  load_secret = λ device_id s. ([], s);
}

abbrev forgotten : Service Script
forgotten = after_forget texts secrets id 1000 service

forget_device-stays_example :
    (get_device_row same_text id forgotten.database ≡ none)
    × (rows_of id forgotten.database.credential_rows ≡ [])
    × (lookup id forgotten.manager.devices ≡ none)
    × (on_device_connected texts 1200 2 id (record forgotten { manager = manager; database = db })
        ≡ record forgotten { manager = manager; database = db })
forget_device-stays_example =
    forget_device-stays texts secrets id 1000 service 1200 2 manager db id-valid refl (omega arith)

abbrev entry : CachedCode
entry = record { code = codes "123456"; valid_until = 60; period = 30 }

abbrev name : List ℕ
name = codes "foo:bar"

abbrev cached : CodeService
cached = record {
  code_cache = (cache_key id name, entry) ∷ [];
  pending_generations = [];
  workers = [];
  code_signals = [];
}

entry_there : lookup (cache_key id name) cached.code_cache ≡ some entry
unfolding lookup list_eq cache_key
entry_there = refl

generate_code_async-fresh_example :
    ((40 < entry.valid_until)
      × (entry.period / 2 < entry.valid_until - 40)
      × (generate_code_async 40 id name manager cached
          ≡ told (code_generated id name entry.code entry.valid_until) cached))
    ⊎ ((entry.valid_until ≤ 40 + entry.period / 2)
        × (lookup (cache_key id name) (generate_code_async 40 id name manager cached).code_cache
            ≡ none)
        × Asks 40 id name manager cached cached (generate_code_async 40 id name manager cached))
generate_code_async-fresh_example =
    generate_code_async-fresh 40 id name manager cached entry refl refl entry_there

id-plain : no_slash id ≡ true
unfolding no_slash
id-plain = refl

clear_cache_for_device-exact_example :
    lookup (cache_key id name) (clear_cache_for_device id cached).code_cache ≡ none
unfolding list_eq
clear_cache_for_device-exact_example =
    clear_cache_for_device-exact id id name cached id-plain id-plain

abbrev generating : CodeService
generating = record {
  code_cache = [];
  pending_generations = cache_key id name ∷ [];
  workers = (id, name) ∷ [];
  code_signals = [];
}

nothing_cached : lookup (cache_key id name) generating.code_cache ≡ none
unfolding lookup
nothing_cached = refl

generation_pending : contains_text (cache_key id name) generating.pending_generations ≡ true
unfolding list_eq cache_key
generation_pending = refl

generate_code_async-twice_example :
    (generate_code_async 40 id name manager generating ≡ generating)
    × ((generate_code_async 40 id name manager (clear_cache_for_device id generating)).workers
        ≡ (id, name) ∷ (id, name) ∷ [])
unfolding get_device
generate_code_async-twice_example =
    generate_code_async-twice 40 id name device manager generating id-plain refl refl device_there
      nothing_cached generation_pending
