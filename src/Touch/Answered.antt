-- ===== src/Touch/Answered.antt =====
-- The touch workflow over its events in any order.
use yubikey_oath_krunner.Prelude.{
  ℕ, ◌≡◌, ◌⊎◌, inl, inr, true, false, List, [], ◌∷◌, none, some, arith, is_empty, not, ap, ◌∙◌,
  Bool-cases, list_eq, if◌then◌else◌, ◌+◌, ◌≤◌, refl,
}
use yubikey_oath_krunner.NitrokeyModel.{DeviceModel}
use yubikey_oath_krunner.Prelude.Maps.{list_eq_iff}
use yubikey_oath_krunner.Manager.{Manager, get_device_or_first}
use yubikey_oath_krunner.Storage.{Database}
use yubikey_oath_krunner.Reconnects.{
  TouchHandler, start_touch_operation, cancel_touch_operation, is_touch_active, on_touch_timeout,
}
use yubikey_oath_krunner.Touch.{
  OperationType, TouchEffect, touch_required, touch_completed, touch_shown, touch_closed, copied,
  typed, code_shown, cancelled_shown, TouchWorkflow, Surroundings, effect, close_touch,
  start_touch_workflow, action_id, execute_action_with_notification, formatted_title,
  on_code_generated, cleanup_touch_workflow, on_code_generation_failed, on_finished,
  on_workflow_timeout, timer_fires, on_touch_cancelled, on_device_touch_detected, copy,
}

module _ (s : Surroundings) where
  -- The events. The timer fires only while it runs, and the user can cancel only while the
  -- notification is up.
  pub data Step : TouchWorkflow → TouchWorkflow → Type 0 where
    starts :
        (m : Manager) (name : List ℕ) (op : OperationType) (id : List ℕ) (model : DeviceModel)
        (w : TouchWorkflow)
        → is_empty name ≡ false
        → Step w (start_touch_workflow s m name op id model w)
    finishes :
        (m : Manager) (db : Database) (name code : List ℕ) (w : TouchWorkflow)
        → is_empty name ≡ false
        → Step w (on_finished s m db name code w)
    fires : (time : ℕ) (w : TouchWorkflow) → w.handler.running ≡ some time → Step w (timer_fires w)
    cancels : (w : TouchWorkflow) → w.notified ≡ true → Step w (on_touch_cancelled w)
    detects : (w : TouchWorkflow) → Step w (on_device_touch_detected w)

  pub data Steps (v : TouchWorkflow) : TouchWorkflow → Type 0 where
    none_yet : Steps v v
    one_more : {w x : TouchWorkflow} → Steps v w → Step w x → Steps v x

unfoldable pub count_required : List TouchEffect → ℕ
count_required [] = 0
count_required (touch_required t model ∷ es) = 1 + count_required es
count_required (touch_completed ok ∷ es) = count_required es
count_required (touch_shown name t model ∷ es) = count_required es
count_required (touch_closed ∷ es) = count_required es
count_required (copied code title ∷ es) = count_required es
count_required (typed code title ∷ es) = count_required es
count_required (code_shown code title model ∷ es) = count_required es
count_required (cancelled_shown name ∷ es) = count_required es

unfoldable pub count_completed : List TouchEffect → ℕ
count_completed [] = 0
count_completed (touch_required t model ∷ es) = count_completed es
count_completed (touch_completed ok ∷ es) = 1 + count_completed es
count_completed (touch_shown name t model ∷ es) = count_completed es
count_completed (touch_closed ∷ es) = count_completed es
count_completed (copied code title ∷ es) = count_completed es
count_completed (typed code title ∷ es) = count_completed es
count_completed (code_shown code title model ∷ es) = count_completed es
count_completed (cancelled_shown name ∷ es) = count_completed es

-- The timer runs and the notification is up only while a touch is awaited, which is then the pending
-- one; and no more touches were completed than required, the awaited one being unanswered.
pub record IsAnswered (w : TouchWorkflow) : Type 0 where
  pub timed : (w.handler.running ≡ none) ⊎ (is_touch_active w.handler ≡ true)
  pub up : (w.notified ≡ false) ⊎ (is_touch_active w.handler ≡ true)
  pub pending : (is_touch_active w.handler ≡ false) ⊎ (w.handler.waiting_for_touch ≡ w.pending_name)
  pub bound :
      count_completed w.effects + (if is_touch_active w.handler then 1 else 0)
      ≤ count_required w.effects

start-IsAnswered :
    (s : Surroundings) (m : Manager) (name : List ℕ) (op : OperationType) (id : List ℕ)
    (model : DeviceModel) (w : TouchWorkflow)
    → is_empty name ≡ false
    → IsAnswered w
    → IsAnswered (start_touch_workflow s m name op id model w)
unfolding start_touch_workflow start_touch_operation is_touch_active count_required count_completed
start-IsAnswered s m name op id model w h i = elim (get_device_or_first id m) [
  | none ↦ record {
    timed = inr (ground (arith, h));
    up = inr (ground (arith, h));
    pending = inr (ground (arith));
    bound = ground (arith, h, i);
  }
  | some d ↦ record {
    timed = inr (ground (arith, h));
    up = inr (ground (arith, h));
    pending = inr (ground (arith));
    bound = ground (arith, h, i);
  }
]

cleanup-IsAnswered :
    (w : TouchWorkflow)
    → 1 + count_completed w.effects ≤ count_required w.effects
    → IsAnswered (cleanup_touch_workflow (effect (touch_completed false) w))
unfolding cleanup_touch_workflow cancel_touch_operation is_touch_active count_required
    count_completed
cleanup-IsAnswered w h = record {
  timed = inl refl;
  up = inl refl;
  pending = inl refl;
  bound = omega (arith, h);
}

-- A touch that is awaited is unanswered.
unanswered :
    (w : TouchWorkflow)
    → is_touch_active w.handler ≡ true
    → IsAnswered w
    → 1 + count_completed w.effects ≤ count_required w.effects
unanswered w h i = grind (arith, h, i.bound)

fires-IsAnswered :
    (time : ℕ) (w : TouchWorkflow)
    → w.handler.running ≡ some time
    → IsAnswered w
    → IsAnswered (timer_fires w)
unfolding timer_fires on_workflow_timeout on_touch_timeout cancel_touch_operation is_touch_active
fires-IsAnswered time w h i =
    let awaited : is_touch_active w.handler ≡ true = ground (arith, h, i.timed) in
    let passive : not (is_empty w.handler.waiting_for_touch) ≡ true = awaited in
    rw passive (
      cleanup-IsAnswered (record w { handler = on_touch_timeout w.handler })
        (unanswered w awaited i))

cancels-IsAnswered :
    (w : TouchWorkflow) → w.notified ≡ true → IsAnswered w → IsAnswered (on_touch_cancelled w)
unfolding on_touch_cancelled count_completed count_required
cancels-IsAnswered w h i =
    let cleaned = cleanup-IsAnswered w (unanswered w (ground (arith, h, i.up)) i) in
    record {
      timed = cleaned.timed;
      up = cleaned.up;
      pending = cleaned.pending;
      bound = cleaned.bound;
    }

detects-IsAnswered : (w : TouchWorkflow) → IsAnswered w → IsAnswered (on_device_touch_detected w)
unfolding on_device_touch_detected is_touch_active count_completed count_required
detects-IsAnswered w i = ground (arith, i)

-- An action touches neither the handler nor what is counted.
pub record Ran (w x : TouchWorkflow) : Type 0 where
  pub handler_kept : x.handler ≡ w.handler
  pub notified_kept : x.notified ≡ w.notified
  pub completed_kept : count_completed x.effects ≡ count_completed w.effects
  pub required_kept : count_required x.effects ≡ count_required w.effects

pub execute-Ran :
    (s : Surroundings) (code title action : List ℕ) (model : DeviceModel) (w : TouchWorkflow)
    → Ran w ((execute_action_with_notification s code title action model w).1)
unfolding execute_action_with_notification count_completed count_required
execute-Ran s code title action model w = ground arith

-- A touch that is over, and what ran for it.
settled :
    (v x : TouchWorkflow)
    → Ran v x
    → v.handler.running ≡ none
    → is_touch_active v.handler ≡ false
    → v.notified ≡ false
    → count_completed v.effects ≤ count_required v.effects
    → IsAnswered (record x { operation = copy; pending_device = [] })
settled v x r h a n b = record {
  timed = inl (ap (λ t. t.running) r.handler_kept ∙ h);
  up = inl (r.notified_kept ∙ n);
  pending = inl (ap is_touch_active r.handler_kept ∙ a);
  bound = rw r.handler_kept (rw a (rw r.completed_kept (rw r.required_kept (omega (arith, b)))));
}

generated-IsAnswered :
    (s : Surroundings) (m : Manager) (db : Database) (name code : List ℕ) (w : TouchWorkflow)
    → list_eq w.handler.waiting_for_touch name ≡ true
    → 1 + count_completed w.effects ≤ count_required w.effects
    → IsAnswered (on_code_generated s m db name code w)
unfolding on_code_generated cancel_touch_operation is_touch_active count_completed count_required
generated-IsAnswered s m db name code w e b =
    let closed = close_touch (effect (touch_completed true) w) in
    let stopped = record closed { handler = cancel_touch_operation closed.handler } in
    rw e (
      settled stopped _
        (execute-Ran s code (formatted_title s m db name w.pending_device) (action_id w.operation)
          w.pending_model stopped)
        refl refl refl (omega (arith, b)))

failed-IsAnswered :
    (name : List ℕ) (w : TouchWorkflow)
    → list_eq w.handler.waiting_for_touch name ≡ true
    → 1 + count_completed w.effects ≤ count_required w.effects
    → IsAnswered (on_code_generation_failed name w)
unfolding on_code_generation_failed
failed-IsAnswered name w e b = rw e (cleanup-IsAnswered w b)

-- A result for another credential changes nothing.
pub on_finished-ignored :
    (s : Surroundings) (m : Manager) (db : Database) (name code : List ℕ) (w : TouchWorkflow)
    → list_eq w.handler.waiting_for_touch name ≡ false
    → on_finished s m db name code w ≡ w
unfolding on_finished on_code_generated on_code_generation_failed
on_finished-ignored s m db name [] w e = rw e refl
on_finished-ignored s m db name (c ∷ cs) w e = rw e refl

matched-IsAnswered :
    (s : Surroundings) (m : Manager) (db : Database) (name code : List ℕ) (w : TouchWorkflow)
    → list_eq w.handler.waiting_for_touch name ≡ true
    → 1 + count_completed w.effects ≤ count_required w.effects
    → IsAnswered (on_finished s m db name code w)
unfolding on_finished
matched-IsAnswered s m db name [] w e b = failed-IsAnswered name w e b
matched-IsAnswered s m db name (c ∷ cs) w e b = generated-IsAnswered s m db name (c ∷ cs) w e b

awaited_of :
    (name : List ℕ) (h : TouchHandler)
    → list_eq h.waiting_for_touch name ≡ true
    → is_empty name ≡ false
    → is_touch_active h ≡ true
unfolding is_touch_active
awaited_of name h e n = ground (arith, list_eq_iff h.waiting_for_touch name, e, n)

finishes-IsAnswered :
    (s : Surroundings) (m : Manager) (db : Database) (name code : List ℕ) (w : TouchWorkflow)
    → is_empty name ≡ false
    → IsAnswered w
    → IsAnswered (on_finished s m db name code w)
finishes-IsAnswered s m db name code w h i =
    elim (Bool-cases (list_eq w.handler.waiting_for_touch name)) [
      | inl e ↦
          matched-IsAnswered s m db name code w e (unanswered w (awaited_of name w.handler e h) i)
      | inr e ↦ rw (on_finished-ignored s m db name code w e) i
    ]

Step-IsAnswered :
    (s : Surroundings) {w x : TouchWorkflow} → Step s w x → IsAnswered w → IsAnswered x
Step-IsAnswered s (starts m name op id model w h) i = start-IsAnswered s m name op id model w h i
Step-IsAnswered s (finishes m db name code w h) i = finishes-IsAnswered s m db name code w h i
Step-IsAnswered s (fires time w h) i = fires-IsAnswered time w h i
Step-IsAnswered s (cancels w h) i = cancels-IsAnswered w h i
Step-IsAnswered s (detects w) i = detects-IsAnswered w i

-- Whatever happens, in any order: the timer runs and the notification is up only while a touch is
-- awaited, the awaited credential is the pending one, and each touchCompleted answers a touchRequired
-- of its own, the awaited touch being still unanswered.
pub Steps-IsAnswered :
    (s : Surroundings) {v w : TouchWorkflow} → IsAnswered v → Steps s v w → IsAnswered w
Steps-IsAnswered s i none_yet = i
Steps-IsAnswered s i (one_more before step) = Step-IsAnswered s step (Steps-IsAnswered s i before)
