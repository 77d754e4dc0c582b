-- ===== src/Touch.antt =====
-- src/daemon/workflows/touch_workflow_coordinator.h and touch_workflow_coordinator.cpp over the touch
-- handler, and executeActionWithNotification of src/daemon/actions/oath_action_coordinator.cpp. What
-- they ask of the notifications, of the action executor and of D-Bus is kept as a list of effects.
pub mod Answered
pub mod Outcomes
use yubikey_oath_krunner.Prelude.{
  ℕ, Bool, true, false, List, [], ◌∷◌, Option, none, some, length, not, is_empty, list_eq,
  if◌then◌else◌,
}
use yubikey_oath_krunner.Prelude.Text.{codes}
use yubikey_oath_krunner.NitrokeyModel.{DeviceModel, unknown_brand}
use yubikey_oath_krunner.Session.{Result, success, error}
use yubikey_oath_krunner.Device.{Device}
use yubikey_oath_krunner.Manager.{
  Manager, get_device_or_first, get_connected_device_ids, get_credentials,
}
use yubikey_oath_krunner.Storage.{Database}
use yubikey_oath_krunner.Services.{Texts, get_device_display_name}
use yubikey_oath_krunner.Services.Credentials.{find_credential}
use yubikey_oath_krunner.Credential.Display.{FormatOptions, get_display_name}
use yubikey_oath_krunner.Reconnects.{
  TouchHandler, start_touch_operation, cancel_touch_operation, is_touch_active, on_touch_timeout,
}

pub data OperationType : Type 0 where
  generate copy type_text delete : OperationType

pub data ActionResult : Type 0 where
  succeeded failed waiting_for_permission : ActionResult

pub data TouchEffect : Type 0 where
  touch_required : ℕ → List ℕ → TouchEffect
  touch_completed : Bool → TouchEffect
  touch_shown : List ℕ → ℕ → DeviceModel → TouchEffect
  touch_closed : TouchEffect
  copied typed : List ℕ → List ℕ → TouchEffect
  code_shown : List ℕ → List ℕ → DeviceModel → TouchEffect
  cancelled_shown : List ℕ → TouchEffect

-- `connection` is the device whose touchRequired is connected. `notified` is set when the touch
-- notification is asked for, which the settings can suppress, and reset when it is closed. Effects are
-- kept with the last one first.
pub record TouchWorkflow : Type 0 where
  pub handler : TouchHandler
  pub operation : OperationType
  pub pending_device : List ℕ
  pub pending_model : DeviceModel
  pub pending_name : List ℕ
  pub pending_timeout : ℕ
  pub connection : Option (List ℕ)
  pub notified : Bool
  pub effects : List TouchEffect

-- The settings and the executor: the result of a copy and of a typing for the code and the title.
pub record Surroundings : Type 0 where
  pub touch_timeout : ℕ
  pub show_username : Bool
  pub show_device_name : Bool
  pub show_only_when_multiple : Bool
  pub texts : Texts
  pub execute_copy : List ℕ → List ℕ → ActionResult
  pub execute_type : List ℕ → List ℕ → ActionResult

abbrev pub no_model : DeviceModel
no_model = record {
  brand = unknown_brand;
  model_code = 0;
  model_string = [];
  form_factor = 0;
  capabilities = [];
}

abbrev pub effect : TouchEffect → TouchWorkflow → TouchWorkflow
effect e w = record w { effects = e ∷ w.effects }

abbrev pub close_touch : TouchWorkflow → TouchWorkflow
close_touch w = effect touch_closed (record w { notified = false })

-- The worker's result comes later, by `on_finished`.
unfoldable pub start_touch_workflow :
    Surroundings
    → Manager
    → List ℕ
    → OperationType
    → List ℕ
    → DeviceModel
    → TouchWorkflow
    → TouchWorkflow
unfolding start_touch_operation get_device_or_first
start_touch_workflow s m name op device_id model w =
    let started = effect (touch_required s.touch_timeout model.model_string) (record w {
      operation = op;
      pending_device = device_id;
      pending_model = model;
      pending_name = name;
      pending_timeout = s.touch_timeout;
    }) in
    let waiting = record started {
      handler = start_touch_operation name s.touch_timeout started.handler;
    } in
    elim (get_device_or_first device_id m) [
      | none ↦ waiting
      | some d ↦ record waiting { connection = some d.device_id }
    ]

-- What the worker returns: no text where the device is gone or refuses.
unfoldable pub worker_code : (Device → Result (List ℕ)) → Manager → List ℕ → List ℕ
unfolding get_device_or_first
worker_code generate_code m device_id = elim (get_device_or_first device_id m) [
  | none ↦ []
  | some d ↦ elim (generate_code d) [ success code ↦ code | error e ↦ [] ]
]

-- `actionId`.
unfoldable pub action_id : OperationType → List ℕ
action_id generate = codes "generate"
action_id copy = codes "copy"
action_id type_text = codes "type"
action_id delete = codes "delete"

unfoldable pub execute_action_with_notification :
    Surroundings
    → List ℕ
    → List ℕ
    → List ℕ
    → DeviceModel
    → TouchWorkflow
    → ActionResult × TouchWorkflow
unfolding list_eq
execute_action_with_notification s code title action model w =
    if list_eq action (codes "copy")
    then (elim (s.execute_copy code title) [
      | succeeded ↦ (succeeded, effect (code_shown code title model) (effect (copied code title) w))
      | failed ↦ (failed, effect (copied code title) w)
      | waiting_for_permission ↦ (waiting_for_permission, effect (copied code title) w)
    ])
    else if list_eq action (codes "type")
    then (s.execute_type code title, effect (typed code title) w)
    else (failed, w)

-- The title of the code, of the credential by the name on the pending device.
unfoldable pub formatted_title : Surroundings → Manager → Database → List ℕ → List ℕ → List ℕ
unfolding get_credentials find_credential get_device_display_name get_connected_device_ids
    get_display_name
formatted_title s m db name device_id = elim (find_credential (get_credentials m) name device_id) [
  | none ↦ name
  | some cred ↦
      get_display_name
        (record {
          show_username = s.show_username;
          show_code = false;
          show_device_name = s.show_device_name;
          device_name = get_device_display_name s.texts device_id db;
          connected_device_count = length (get_connected_device_ids m);
          show_device_only_when_multiple = s.show_only_when_multiple;
        })
        cred
]

-- The connection and the pending name stay.
unfoldable pub on_code_generated :
    Surroundings → Manager → Database → List ℕ → List ℕ → TouchWorkflow → TouchWorkflow
unfolding list_eq cancel_touch_operation formatted_title action_id execute_action_with_notification
on_code_generated s m db name code w =
    if not (list_eq w.handler.waiting_for_touch name)
    then w
    else let closed = close_touch (effect (touch_completed true) w) in
      let stopped = record closed { handler = cancel_touch_operation closed.handler } in
      let ran =
        execute_action_with_notification s code (formatted_title s m db name w.pending_device)
          (action_id w.operation) w.pending_model stopped in
      record (ran.1) { operation = copy; pending_device = [] }

unfoldable pub cleanup_touch_workflow : TouchWorkflow → TouchWorkflow
unfolding cancel_touch_operation
cleanup_touch_workflow w =
    record (close_touch (record w { handler = cancel_touch_operation w.handler })) {
      operation = copy;
      pending_device = [];
      pending_model = no_model;
      pending_name = [];
      connection = none;
    }

unfoldable pub on_code_generation_failed : List ℕ → TouchWorkflow → TouchWorkflow
unfolding list_eq cleanup_touch_workflow
on_code_generation_failed name w =
    if not (list_eq w.handler.waiting_for_touch name)
    then w
    else cleanup_touch_workflow (effect (touch_completed false) w)

-- The watcher's `finished`.
unfoldable pub on_finished :
    Surroundings → Manager → Database → List ℕ → List ℕ → TouchWorkflow → TouchWorkflow
unfolding on_code_generated on_code_generation_failed
on_finished s m db name code w =
    if not (is_empty code)
    then on_code_generated s m db name code w
    else on_code_generation_failed name w

-- The slot of touchTimedOut.
unfoldable pub on_workflow_timeout : List ℕ → TouchWorkflow → TouchWorkflow
unfolding cleanup_touch_workflow
on_workflow_timeout name w =
    if not (is_empty name) then cleanup_touch_workflow (effect (touch_completed false) w) else w

-- The timer of the handler: its slot, and the slot of the signal that this one emits.
unfoldable pub timer_fires : TouchWorkflow → TouchWorkflow
unfolding on_touch_timeout on_workflow_timeout
timer_fires w =
    on_workflow_timeout w.handler.waiting_for_touch
      (record w { handler = on_touch_timeout w.handler })

unfoldable pub on_touch_cancelled : TouchWorkflow → TouchWorkflow
unfolding cleanup_touch_workflow
on_touch_cancelled w =
    effect (cancelled_shown w.handler.waiting_for_touch)
      (cleanup_touch_workflow (effect (touch_completed false) w))

unfoldable pub on_device_touch_detected : TouchWorkflow → TouchWorkflow
unfolding list_eq
on_device_touch_detected w =
    if is_empty w.handler.waiting_for_touch
    then w
    else if not (list_eq w.handler.waiting_for_touch w.pending_name)
    then w
    else record (effect (touch_shown w.pending_name w.pending_timeout w.pending_model) w) {
      notified = true;
      connection = none;
    }
