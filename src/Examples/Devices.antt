-- ===== src/Examples/Devices.antt =====
-- Examples of the operations of a device, with a session class that answers at once.
use yubikey_oath_krunner.Prelude.{◌≡◌, refl, true, false, [], ◌∷◌, none, some, arith}
use yubikey_oath_krunner.Prelude.Text.{codes}
use yubikey_oath_krunner.Credential.{OathCredential, new_credential}
use yubikey_oath_krunner.Session.{received, success, touch_required}
use yubikey_oath_krunner.Session.Transport.{
  update_card_handle, send_apdu, send_retrying, rate_limit, transmit_apdu, stamp, chain_loop,
}
use yubikey_oath_krunner.Session.Operations.{select_oath_application, store_select}
use yubikey_oath_krunner.Status.{payload}
use yubikey_oath_krunner.Device.{Pcsc, SessionClass, Device, DeviceWorld, queued}
use yubikey_oath_krunner.Device.Fetch.{finish_update}
use yubikey_oath_krunner.Device.Fetch.Steps.{here, later, start_update, start_late, on}
use yubikey_oath_krunner.Device.Fetch.Tracked.{IsTracked}
use yubikey_oath_krunner.Device.Fetch.Reachable.{Reach-IsTracked, begin_update-twice}
use yubikey_oath_krunner.Device.Reconnect.{
  reconnect_card_handle, drop_handle, attempts, wait_ms, attempt, try_card, select_on,
  keep_or_close, store_handle,
}
use yubikey_oath_krunner.Device.Reconnect.Attempts.{Ends, reconnect_card_handle-Ends}
use yubikey_oath_krunner.Device.Operations.Outcomes.{with_transaction-ends}
use yubikey_oath_krunner.Device.Operations
use yubikey_oath_krunner.Session.Password
use yubikey_oath_krunner.Device.Create.{new_device}
use yubikey_oath_krunner.Device.Operations.{
  with_transaction, in_transaction, select_unless, body_after, end_with, code_of, announce_touch,
  begin_update, update_credential_cache_async,
}
use yubikey_oath_krunner.Examples.Data.{Script, scripted, ascii}

abbrev pub pcsc : Pcsc Script
pcsc = record {
  begin_transaction = λ handle s. (none, s);
  end_transaction = λ handle s. s;
  connect = λ protocols reader s. (some (5, 1), s);
  disconnect = λ handle s. s;
}

abbrev pub known : OathCredential
known = record new_credential { original_name = codes "foo:bar" }

abbrev pub class : SessionClass Script
class = record {
  parse_select = λ response out. (record out { device_id = codes "42" }, true);
  calculate_code = λ name period u. some (success (codes "123456"), u);
  calculate_all = λ u. some (success (known ∷ []), u);
}

abbrev pub device : Device
device = record (new_device (codes "42") (codes "r") 4 2 [] false) { credentials = known ∷ [] }

abbrev pub on_card : Device → DeviceWorld Script
on_card d = record {
  device = d;
  world = record { replies = received (0x90 ∷ 0x00 ∷ []) ∷ []; reconnects = [] };
}

abbrev no_script : Script
no_script = record { replies = []; reconnects = [] }

-- The device after an operation at the time of the scripted clock.
abbrev used : Device
used = record device { session = record (device.session) { last_operation_ms = 5000 } }

abbrev left : DeviceWorld Script
left = record { device = used; world = no_script }

-- A device with a password, whose credential asks for a touch, and a card that asks for the password.
abbrev touched : OathCredential
touched = record known { requires_touch = true }

abbrev guarded : Device
guarded = record device { credentials = touched ∷ []; password = codes "pw" }

abbrev asking : SessionClass Script
asking = record class {
  parse_select = λ response out. (record out { device_id = codes "42"; challenge = 5 ∷ [] }, true);
}

abbrev unlocked : DeviceWorld Script
unlocked = record {
  device = guarded;
  world = record {
    replies = received (0x90 ∷ 0x00 ∷ []) ∷ received (0x90 ∷ 0x00 ∷ []) ∷ [];
    reconnects = [];
  };
}

abbrev after_code : DeviceWorld Script
after_code = record {
  device = record guarded {
    session = record (device.session) { last_operation_ms = 5000; events = touch_required ∷ [] };
  };
  world = no_script;
}

transaction_run :
    with_transaction scripted pcsc class ascii 1 false
      (code_of scripted pcsc class ascii 1 (codes "foo:bar") known)
      (on_card device)
    ≡ some (success (codes "123456"), left)
unfolding with_transaction in_transaction select_unless body_after end_with code_of announce_touch
    send_apdu send_retrying rate_limit transmit_apdu stamp chain_loop select_oath_application
    new_device payload store_select
transaction_run = refl

with_transaction-ends_example : (w : Script) × (no_script ≡ w)
unfolding new_device
with_transaction-ends_example =
    with_transaction-ends scripted pcsc class ascii 1 false
      (code_of scripted pcsc class ascii 1 (codes "foo:bar") known) (on_card device) left
      (success (codes "123456")) transaction_run (λ e. absurd (omega arith)) refl

-- The device once two threads have started an update each.
abbrev raced : DeviceWorld Script
raced =
    on scripted pcsc class ascii 1 (begin_update [])
      (on scripted pcsc class ascii 1 (update_credential_cache_async []) (on_card device))

Reach-IsTracked_example : IsTracked raced.device
unfolding new_device
Reach-IsTracked_example =
    Reach-IsTracked scripted pcsc class ascii 1 {s = on_card device} {t = raced}
      (refl, refl, refl, refl)
      (later (later here (start_update (on_card device) [])) (
        start_late
          (on scripted pcsc class ascii 1 (update_credential_cache_async []) (on_card device)) []))

begin_update-twice_example :
    ((begin_update [] device).updates ≡ queued [] ∷ [])
    × (update_credential_cache_async [] device ≡ begin_update [] device)
    × ((begin_update [] (update_credential_cache_async [] device)).updates
        ≡ queued [] ∷ queued [] ∷ [])
    × ((finish_update []
          (begin_update [] (update_credential_cache_async [] device))).update_in_progress
        ≡ false)
    × (update_credential_cache_async []
          (finish_update [] (begin_update [] (update_credential_cache_async [] device)))
        ≡ begin_update []
            (finish_update [] (begin_update [] (update_credential_cache_async [] device))))
unfolding new_device
begin_update-twice_example = begin_update-twice [] [] [] [] device refl

abbrev renewed : DeviceWorld Script
renewed = record {
  device = record device {
    card_handle = 5;
    session = record (device.session) { card_handle = 5; protocol = 1 };
  };
  world = no_script;
}

reconnect_run :
    reconnect_card_handle scripted pcsc class ascii 1 (codes "r") (on_card device)
    ≡ some (success tt, renewed)
unfolding reconnect_card_handle drop_handle attempts wait_ms attempt try_card select_on
    keep_or_close store_handle update_card_handle send_apdu send_retrying rate_limit transmit_apdu
    stamp chain_loop select_oath_application new_device payload store_select
reconnect_run = refl

reconnect_card_handle-Ends_example :
    Ends scripted pcsc class ascii 1
      (codes "r")
      (0 ∷ 100 ∷ 200 ∷ 400 ∷ 800 ∷ 1600 ∷ [])
      (record { device = record device { card_handle = 0 }; world = (on_card device).world })
      renewed
      (success tt)
unfolding new_device
reconnect_card_handle-Ends_example =
    reconnect_card_handle-Ends scripted pcsc class ascii 1 (codes "r") (on_card device) renewed
      (success tt) reconnect_run
