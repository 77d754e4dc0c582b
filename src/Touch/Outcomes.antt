-- ===== src/Touch/Outcomes.antt =====
-- How a touch workflow ends.
use yubikey_oath_krunner.Prelude.{
  ℕ, ◌≡◌, ◌⊎◌, inl, inr, true, false, List, [], ◌∷◌, arith, is_empty, list_eq, list_eq_refl, ap,
  ◌∙◌, refl, Bool-cases,
}
use yubikey_oath_krunner.Prelude.Maps.{list_eq_iff}
use yubikey_oath_krunner.NitrokeyModel.{DeviceModel}
use yubikey_oath_krunner.Manager.{Manager}
use yubikey_oath_krunner.Storage.{Database}
use yubikey_oath_krunner.Reconnects.{
  start_touch_operation, cancel_touch_operation, on_touch_timeout,
}
use yubikey_oath_krunner.Touch.{
  OperationType, generate, delete, touch_required, touch_completed, touch_closed, TouchWorkflow,
  Surroundings, effect, close_touch, start_touch_workflow, action_id,
  execute_action_with_notification, formatted_title, on_code_generated, cleanup_touch_workflow,
  on_code_generation_failed, on_finished, on_workflow_timeout, timer_fires, on_touch_cancelled,
}
use yubikey_oath_krunner.Touch.Answered.{execute-Ran, on_finished-ignored}

module _ (s : Surroundings) (m : Manager) (db : Database) where
  -- A result that comes when no touch is awaited changes nothing.
  late :
      (name code : List ℕ) (w : TouchWorkflow)
      → is_empty name ≡ false
      → w.handler.waiting_for_touch ≡ []
      → on_finished s m db name code w ≡ w
  late name code w n e =
      on_finished-ignored s m db name code w
        (ground (arith, e, n, list_eq_iff w.handler.waiting_for_touch name))

  timer_fires-idle : (w : TouchWorkflow) → (timer_fires w).handler.waiting_for_touch ≡ []
  unfolding timer_fires on_workflow_timeout on_touch_timeout cancel_touch_operation
      cleanup_touch_workflow
  timer_fires-idle w = ground arith

  cancelled-idle : (w : TouchWorkflow) → (on_touch_cancelled w).handler.waiting_for_touch ≡ []
  unfolding on_touch_cancelled cleanup_touch_workflow cancel_touch_operation
  cancelled-idle w = refl

  generated-idle :
      (name code : List ℕ) (w : TouchWorkflow)
      → list_eq w.handler.waiting_for_touch name ≡ true
      → (on_code_generated s m db name code w).handler.waiting_for_touch ≡ []
  unfolding on_code_generated cancel_touch_operation
  generated-idle name code w e =
      let closed = close_touch (effect (touch_completed true) w) in
      let stopped = record closed { handler = cancel_touch_operation closed.handler } in
      rw e (
        ap (λ t. t.waiting_for_touch)
          ((execute-Ran s code (formatted_title s m db name w.pending_device)
            (action_id w.operation) w.pending_model stopped).handler_kept))

  failed-idle :
      (name : List ℕ) (w : TouchWorkflow)
      → list_eq w.handler.waiting_for_touch name ≡ true
      → (on_code_generation_failed name w).handler.waiting_for_touch ≡ []
  unfolding on_code_generation_failed cleanup_touch_workflow cancel_touch_operation
  failed-idle name w e = rw e refl

  finished-idle :
      (name code : List ℕ) (w : TouchWorkflow)
      → list_eq w.handler.waiting_for_touch name ≡ true
      → (on_finished s m db name code w).handler.waiting_for_touch ≡ []
  unfolding on_finished
  finished-idle name [] w e = failed-idle name w e
  finished-idle name (c ∷ cs) w e = generated-idle name (c ∷ cs) w e

  finished-twice :
      (name code again : List ℕ) (w : TouchWorkflow)
      → is_empty name ≡ false
      → on_finished s m db name again (on_finished s m db name code w)
        ≡ on_finished s m db name code w
  finished-twice name code again w n =
      elim (Bool-cases (list_eq w.handler.waiting_for_touch name)) [
        | inl e ↦ late name again (on_finished s m db name code w) n (finished-idle name code w e)
        | inr e ↦
            let same = on_finished-ignored s m db name code w e in
            rw same (on_finished-ignored s m db name again w e)
      ]

-- A touch has one outcome: after the timeout, after the user cancelled, and after a first result, a
-- result for the same credential changes nothing, as long as no workflow is started.
pub on_finished-once :
    (s : Surroundings) (m : Manager) (db : Database) (name code again : List ℕ) (w : TouchWorkflow)
    → is_empty name ≡ false
    → (on_finished s m db name again (timer_fires w) ≡ timer_fires w)
      × (on_finished s m db name again (on_touch_cancelled w) ≡ on_touch_cancelled w)
      × (on_finished s m db name again (on_finished s m db name code w)
          ≡ on_finished s m db name code w)
on_finished-once s m db name code again w n = (
  late s m db name again (timer_fires w) n (timer_fires-idle s m db w),
  late s m db name again (on_touch_cancelled w) n (cancelled-idle s m db w),
  finished-twice s m db name code again w n,
)

start-waits :
    (s : Surroundings) (m : Manager) (name id : List ℕ) (op : OperationType) (model : DeviceModel)
    (w : TouchWorkflow)
    → ((start_touch_workflow s m name op id model w).handler.waiting_for_touch ≡ name)
      × ((start_touch_workflow s m name op id model w).effects
          ≡ touch_required s.touch_timeout model.model_string ∷ w.effects)
unfolding start_touch_workflow start_touch_operation
start-waits s m name id op model w = ground arith

failure :
    (s : Surroundings) (m : Manager) (db : Database) (name : List ℕ) (w : TouchWorkflow)
    → w.handler.waiting_for_touch ≡ name
    → (on_finished s m db name [] w).effects ≡ touch_closed ∷ touch_completed false ∷ w.effects
unfolding on_finished on_code_generation_failed cleanup_touch_workflow
failure s m db name w e = ground (arith, e, list_eq_iff w.handler.waiting_for_touch name)

-- A workflow that timed out and is started again for the same credential, on the same device or
-- another one, is ended by the failure of the first worker, when that comes late: the failure is told
-- as the outcome of the second workflow.
pub on_finished-stale :
    (s : Surroundings) (m : Manager) (db : Database) (name first second : List ℕ)
    (op : OperationType) (model : DeviceModel) (w : TouchWorkflow)
    → ((on_finished s m db name [] (
          start_touch_workflow s m name op second model (
            timer_fires
              (start_touch_workflow s m name op first model w)))).handler.waiting_for_touch
        ≡ [])
      × ((on_finished s m db name [] (
            start_touch_workflow s m name op second model
              (timer_fires (start_touch_workflow s m name op first model w)))).effects
          ≡ touch_closed
            ∷ touch_completed false
            ∷ touch_required s.touch_timeout model.model_string
            ∷ (timer_fires (start_touch_workflow s m name op first model w)).effects)
on_finished-stale s m db name first second op model w =
    let timed_out = timer_fires (start_touch_workflow s m name op first model w) in
    let again = start_touch_workflow s m name op second model timed_out in
    let waits = start-waits s m name second op model timed_out in
    (
      finished-idle s m db name [] again (rw (waits.0) (list_eq_refl name)),
      failure s m db name again (waits.0) ∙ rw (waits.1) refl,
    )

-- After a touch that was asked for to generate or to delete, the code is used for nothing: the
-- notification is closed and the touch is told to be completed, and no action runs.
pub on_finished-unused :
    (s : Surroundings) (m : Manager) (db : Database) (name code : List ℕ) (w : TouchWorkflow)
    → w.handler.waiting_for_touch ≡ name
    → is_empty code ≡ false
    → (w.operation ≡ generate) ⊎ (w.operation ≡ delete)
    → (on_finished s m db name code w).effects ≡ touch_closed ∷ touch_completed true ∷ w.effects
unfolding on_finished on_code_generated execute_action_with_notification action_id
on_finished-unused s m db name code w e c (inl o) =
    ground (arith, e, c, o, list_eq_iff w.handler.waiting_for_touch name)
on_finished-unused s m db name code w e c (inr o) =
    ground (arith, e, c, o, list_eq_iff w.handler.waiting_for_touch name)
