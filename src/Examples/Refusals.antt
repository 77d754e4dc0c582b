-- ===== src/Examples/Refusals.antt =====
-- An example of a password that is refused, by a card that does not answer.
use yubikey_oath_krunner.Prelude.{◌≡◌, refl, true, false, [], ◌∷◌, some, list_eq}
use yubikey_oath_krunner.Prelude.Text.{codes}
use yubikey_oath_krunner.Prelude.Maps.{lookup}
use yubikey_oath_krunner.Session.{error, error_occurred, transaction_select_failed, select_failed}
use yubikey_oath_krunner.Session.Transport.{
  send_apdu, send_retrying, rate_limit, transmit_apdu, stamp, chain_loop,
}
use yubikey_oath_krunner.Session.Operations.{select_oath_application}
use yubikey_oath_krunner.Device.Fetch.{fetch_credentials_sync, fetch_in_transaction}
use yubikey_oath_krunner.Device.{SessionClass, Device}
use yubikey_oath_krunner.Device.Create.{new_device}
use yubikey_oath_krunner.Device.Operations.{
  authenticate_with_password, with_transaction, in_transaction, select_unless, body_after, end_with,
}
use yubikey_oath_krunner.Services.{Service}
use yubikey_oath_krunner.Services.Passwords.{save_password}
use yubikey_oath_krunner.Services.Passwords.Cleared.{HasNoPassword, save_password-refused}
use yubikey_oath_krunner.Examples.Data.{Script, scripted}
use yubikey_oath_krunner.Examples.Devices.{pcsc, class}
use yubikey_oath_krunner.Examples.Services.{id, texts, secrets, manager, db}

abbrev protected : Device
protected = record (new_device id (codes "r") 4 2 [] true) { password = codes "old" }

abbrev class_of : Device → SessionClass Script
class_of d = class

abbrev service : Service Script
service = record {
  manager = record manager { devices = (id, protected) ∷ [] };
  database = db;
  world = record { replies = []; reconnects = [] };
  forgotten = [];
  loads = [];
  signals = [];
}

-- The device after an operation that failed, with so many errors signalled.
abbrev failed_once : Device
failed_once = record protected {
  session = record (protected.session) { last_operation_ms = 5000; events = error_occurred ∷ [] };
}

abbrev failed_twice : Device
failed_twice = record failed_once {
  password = [];
  session = record (failed_once.session) { events = error_occurred ∷ error_occurred ∷ [] };
}

refused :
    authenticate_with_password scripted pcsc class texts.qt 1
      (codes "new")
      (record { device = protected; world = service.world })
    ≡ some (
      error (transaction_select_failed select_failed),
      record { device = failed_once; world = service.world },
    )
unfolding authenticate_with_password with_transaction in_transaction select_unless body_after
    end_with send_apdu send_retrying rate_limit transmit_apdu stamp chain_loop
    select_oath_application new_device
refused = refl

device_there : lookup id service.manager.devices ≡ some protected
unfolding lookup list_eq
device_there = refl

fetch_empty :
    fetch_credentials_sync scripted pcsc class texts.qt 1 []
      (record { device = record failed_once { password = [] }; world = service.world })
    ≡ some ([], record { device = failed_twice; world = service.world })
unfolding with_transaction in_transaction select_unless body_after end_with send_apdu send_retrying
    rate_limit transmit_apdu stamp chain_loop select_oath_application new_device
    fetch_credentials_sync fetch_in_transaction
fetch_empty = refl

save_password-refused_example :
    (after : Service Script) × (save_password scripted pcsc class_of texts secrets 1 id
        (codes "new")
        service
      ≡ some (false, after))
    × (after.database ≡ service.database)
    × (after.world ≡ service.world)
    × HasNoPassword scripted pcsc class_of texts secrets 1 id protected after
save_password-refused_example =
    save_password-refused scripted pcsc class_of texts secrets 1 id protected (codes "new")
      (transaction_select_failed select_failed) service
      (record { device = failed_once; world = service.world })
      (record { device = failed_twice; world = service.world }) device_there refused fetch_empty
