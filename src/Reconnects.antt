-- ===== src/Reconnects.antt =====
-- src/daemon/infrastructure/device_reconnect_coordinator.cpp, and src/daemon/workflows/touch_handler.cpp:
-- one reconnect, and one wait for a touch, at a time.
pub mod Dropped
use yubikey_oath_krunner.Prelude.{
  ℕ, Bool, true, false, List, [], ◌∷◌, Option, none, some, ◌*◌, ltb, not, is_empty, if◌then◌else◌,
}
use yubikey_oath_krunner.Session.{Result, success, error}

pub data CoordinatorSignal : Type 0 where
  reconnect_started : List ℕ → CoordinatorSignal
  reconnect_completed : List ℕ → Bool → CoordinatorSignal

-- `timer` says whether `m_timer` is there, `has_function` whether a reconnect function is set. Signals
-- are kept with the last one first.
pub record Coordinator : Type 0 where
  pub has_function : Bool
  pub timer : Bool
  pub current_device : List ℕ
  pub current_reader : List ℕ
  pub command : List ℕ
  pub coordinator_signals : List CoordinatorSignal

abbrev pub emitted : CoordinatorSignal → Coordinator → Coordinator
emitted g c = record c { coordinator_signals = g ∷ c.coordinator_signals }

abbrev pub clean : Coordinator → Coordinator
clean c = record c { current_device = []; current_reader = []; command = [] }

unfoldable pub set_reconnect_function : Coordinator → Coordinator
set_reconnect_function c = record c { has_function = true }

unfoldable pub cancel_reconnect : Coordinator → Coordinator
cancel_reconnect c = clean (record c { timer = false })

unfoldable pub start_reconnect : List ℕ → List ℕ → List ℕ → Coordinator → Coordinator
unfolding cancel_reconnect
start_reconnect device_id reader_name cmd c =
    record (emitted (reconnect_started device_id) (record (cancel_reconnect c) {
      current_device = device_id;
      current_reader = reader_name;
      command = cmd;
    })) { timer = true }

unfoldable pub is_reconnecting : Coordinator → Bool
is_reconnecting c = c.timer

-- `run` is the reconnect function, given the reader. Without one the timer, which has fired, stays.
unfoldable pub on_reconnect_timeout : (List ℕ → Result (Unit {0})) → Coordinator → Coordinator
on_reconnect_timeout run c =
    if not c.has_function
    then emitted (reconnect_completed c.current_device false) (clean c)
    else (elim (run c.current_reader) [
      | success _ ↦
          emitted (reconnect_completed c.current_device true) (clean (record c { timer = false }))
      | error e ↦
          emitted (reconnect_completed c.current_device false) (clean (record c { timer = false }))
    ])

-- `running` is the time of the timer in milliseconds. Timeouts are kept with the last one first.
pub record TouchHandler : Type 0 where
  pub waiting_for_touch : List ℕ
  pub running : Option ℕ
  pub timed_out : List (List ℕ)

-- A timeout that is not above zero starts no timer, and stops none.
unfoldable pub start_touch_operation : List ℕ → ℕ → TouchHandler → TouchHandler
start_touch_operation name timeout_seconds h =
    let waiting = record h { waiting_for_touch = name } in
    if ltb 0 timeout_seconds
    then record waiting { running = some (timeout_seconds * 1000) }
    else waiting

unfoldable pub cancel_touch_operation : TouchHandler → TouchHandler
cancel_touch_operation h = record h { waiting_for_touch = []; running = none }

unfoldable pub is_touch_active : TouchHandler → Bool
is_touch_active h = not (is_empty h.waiting_for_touch)

-- The timer is single-shot.
unfoldable pub on_touch_timeout : TouchHandler → TouchHandler
unfolding cancel_touch_operation
on_touch_timeout h =
    let cancelled = cancel_touch_operation h in
    record cancelled { timed_out = h.waiting_for_touch ∷ cancelled.timed_out }
