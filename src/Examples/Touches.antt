-- ===== src/Examples/Touches.antt =====
-- Examples of the touch workflow: a touch that is answered, one that times out, and one that was asked
-- for to generate a code.
use yubikey_oath_krunner.Prelude.{ℕ, ◌≡◌, refl, true, false, List, [], ◌∷◌, none, inl, arith}
use yubikey_oath_krunner.Prelude.Text.{codes}
use yubikey_oath_krunner.Reconnects.{is_touch_active}
use yubikey_oath_krunner.Touch.{
  OperationType, generate, copy, succeeded, failed, TouchWorkflow, Surroundings, touch_required,
  touch_completed, touch_closed, no_model, start_touch_workflow, on_finished, timer_fires,
  on_touch_cancelled, on_device_touch_detected,
}
use yubikey_oath_krunner.Touch.Answered.{
  IsAnswered, none_yet, one_more, starts, detects, finishes, Steps-IsAnswered, count_required,
  count_completed,
}
use yubikey_oath_krunner.Touch.Outcomes.{on_finished-once, on_finished-stale, on_finished-unused}
use yubikey_oath_krunner.Examples.Services.{id, db, texts, device, manager}

abbrev surroundings : Surroundings
surroundings = record {
  touch_timeout = 15;
  show_username = true;
  show_device_name = false;
  show_only_when_multiple = true;
  texts = texts;
  execute_copy = λ code title. succeeded;
  execute_type = λ code title. failed;
}

abbrev quiet : TouchWorkflow
quiet = record {
  handler = record { waiting_for_touch = []; running = none; timed_out = [] };
  operation = generate;
  pending_device = [];
  pending_model = no_model;
  pending_name = [];
  pending_timeout = 15;
  connection = none;
  notified = false;
  effects = [];
}

quiet-IsAnswered : IsAnswered quiet
unfolding is_touch_active count_required count_completed
quiet-IsAnswered = record {
  timed = inl refl;
  up = inl refl;
  pending = inl refl;
  bound = omega arith;
}

abbrev name : List ℕ
name = codes "github:a"

abbrev code : List ℕ
code = codes "123456"

abbrev awaited : OperationType → TouchWorkflow
awaited op = start_touch_workflow surroundings manager name op id device.device_model quiet

abbrev detected : TouchWorkflow
detected = on_device_touch_detected (awaited copy)

abbrev answered : TouchWorkflow
answered = on_finished surroundings manager db name code detected

Steps-IsAnswered_example : IsAnswered answered
Steps-IsAnswered_example =
    Steps-IsAnswered surroundings {v = quiet} {w = answered} quiet-IsAnswered (
      one_more
        (one_more (one_more none_yet (starts manager name copy id device.device_model quiet refl))
          (detects (awaited copy)))
        (finishes manager db name code detected refl))

on_finished-once_example :
    (on_finished surroundings manager db name [] (timer_fires detected) ≡ timer_fires detected)
    × (on_finished surroundings manager db name [] (on_touch_cancelled detected)
        ≡ on_touch_cancelled detected)
    × (on_finished surroundings manager db name []
          (on_finished surroundings manager db name code detected)
        ≡ on_finished surroundings manager db name code detected)
on_finished-once_example = on_finished-once surroundings manager db name code [] detected refl

abbrev restarted : TouchWorkflow
restarted =
    start_touch_workflow surroundings manager name copy id device.device_model
      (timer_fires (awaited copy))

on_finished-stale_example :
    ((on_finished surroundings manager db name [] restarted).handler.waiting_for_touch ≡ [])
    × ((on_finished surroundings manager db name [] restarted).effects
        ≡ touch_closed
          ∷ touch_completed false
          ∷ touch_required 15 (codes "YubiKey 5")
          ∷ (timer_fires (awaited copy)).effects)
on_finished-stale_example =
    on_finished-stale surroundings manager db name id id copy device.device_model quiet

-- The workflow that waits, and is about to generate.
abbrev generating : TouchWorkflow
generating = record quiet {
  handler = record { waiting_for_touch = name; running = none; timed_out = [] };
  effects = touch_required 15 (codes "YubiKey 5") ∷ [];
}

on_finished-unused_example :
    (on_finished surroundings manager db name code generating).effects
    ≡ touch_closed ∷ touch_completed true ∷ touch_required 15 (codes "YubiKey 5") ∷ []
on_finished-unused_example =
    on_finished-unused surroundings manager db name code generating refl refl (inl refl)
