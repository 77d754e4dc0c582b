-- ===== src/Examples/Decisions.antt =====
-- Examples of the coordinator of reconnects.
use yubikey_oath_krunner.Prelude.{ℕ, ◌≡◌, refl, true, false, List, [], ◌∷◌}
use yubikey_oath_krunner.Prelude.Text.{codes}
use yubikey_oath_krunner.Session.{Result, success}
use yubikey_oath_krunner.Reconnects.{
  Coordinator, reconnect_started, reconnect_completed, start_reconnect, on_reconnect_timeout,
  is_reconnecting,
}
use yubikey_oath_krunner.Reconnects.Dropped.{reached, start_reconnect-drops}

abbrev quiet : Coordinator
quiet = record {
  has_function = true;
  timer = false;
  current_device = [];
  current_reader = [];
  command = [];
  coordinator_signals = [];
}

abbrev started : Coordinator
started = start_reconnect (codes "a") (codes "r") [] quiet

abbrev always : List ℕ → Result (Unit {0})
always reader = success tt

abbrev second : Coordinator
second = on_reconnect_timeout always (start_reconnect (codes "b") (codes "q") [] started)

start_reconnect-drops_example :
    (is_reconnecting second ≡ false)
    × (second.coordinator_signals
        ≡ reconnect_completed (codes "b") (reached (always (codes "q")))
          ∷ reconnect_started (codes "b")
          ∷ reconnect_started (codes "a")
          ∷ [])
start_reconnect-drops_example =
    start_reconnect-drops always (codes "a") (codes "b") (codes "r") (codes "q") [] [] quiet refl
