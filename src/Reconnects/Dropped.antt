-- ===== src/Reconnects/Dropped.antt =====
-- The coordinator over its calls in any order.
use yubikey_oath_krunner.Prelude.{
  ℕ, ◌≡◌, ◌⊎◌, Bool, true, false, List, [], ◌∷◌, Option, some, none, arith, if◌then◌else◌, ◌+◌, ◌≤◌,
}
use yubikey_oath_krunner.Session.{Result, success, error}
use yubikey_oath_krunner.Reconnects.{
  Coordinator, CoordinatorSignal, reconnect_started, reconnect_completed, set_reconnect_function,
  cancel_reconnect, start_reconnect, on_reconnect_timeout, is_reconnecting,
}

-- The calls: a timeout comes only while the timer is there.
pub data Call : Coordinator → Coordinator → Type 0 where
  sets : (c : Coordinator) → Call c (set_reconnect_function c)
  starts : (id reader cmd : List ℕ) (c : Coordinator) → Call c (start_reconnect id reader cmd c)
  cancels : (c : Coordinator) → Call c (cancel_reconnect c)
  fires :
      (run : List ℕ → Result (Unit {0})) (c : Coordinator)
      → is_reconnecting c ≡ true
      → Call c (on_reconnect_timeout run c)

pub data Calls (c : Coordinator) : Coordinator → Type 0 where
  none_yet : Calls c c
  one_more : {d e : Coordinator} → Calls c d → Call d e → Calls c e

unfoldable pub count_started : List CoordinatorSignal → ℕ
count_started [] = 0
count_started (reconnect_started id ∷ gs) = 1 + count_started gs
count_started (reconnect_completed id ok ∷ gs) = count_started gs

unfoldable pub count_completed : List CoordinatorSignal → ℕ
count_completed [] = 0
count_completed (reconnect_started id ∷ gs) = count_completed gs
count_completed (reconnect_completed id ok ∷ gs) = 1 + count_completed gs

-- Signals, the last one first, with the device whose reconnect they leave unanswered: a completion is of
-- the device of the last start, which is unanswered until then, and a reconnect can be dropped without
-- a signal.
pub data Log : List CoordinatorSignal → Option (List ℕ) → Type 0 where
  empty : Log [] none
  begun :
      {gs : List CoordinatorSignal} {o : Option (List ℕ)} (id : List ℕ)
      → Log gs o
      → Log (reconnect_started id ∷ gs) (some id)
  answered :
      {gs : List CoordinatorSignal} (id : List ℕ) (ok : Bool)
      → Log gs (some id)
      → Log (reconnect_completed id ok ∷ gs) none
  dropped : {gs : List CoordinatorSignal} {o : Option (List ℕ)} → Log gs o → Log gs none

-- A function is set, no device is current without a timer, the signals so far leave exactly the current
-- device's reconnect unanswered, if the timer is there, and no more reconnects were completed than
-- started; one that is going on has not been completed.
pub record IsOrdered (c : Coordinator) : Type 0 where
  pub ready : c.has_function ≡ true
  pub idle : (c.timer ≡ true) ⊎ (c.current_device ≡ [])
  pub log : Log c.coordinator_signals (if c.timer then some c.current_device else none)
  pub bound :
      count_completed c.coordinator_signals + (if c.timer then 1 else 0)
      ≤ count_started c.coordinator_signals

abbrev pub reached : Result (Unit {0}) → Bool
reached (success _) = true
reached (error e) = false

on_reconnect_timeout-completes :
    (run : List ℕ → Result (Unit {0})) (c : Coordinator)
    → c.has_function ≡ true
    → (is_reconnecting (on_reconnect_timeout run c) ≡ false)
      × ((on_reconnect_timeout run c).coordinator_signals
          ≡ reconnect_completed c.current_device (reached (run c.current_reader))
            ∷ c.coordinator_signals)
unfolding on_reconnect_timeout is_reconnecting
on_reconnect_timeout-completes run c h = (ground (arith, h), ground (arith, h))

-- A second start drops the first: the timeout that follows completes the second device only, after
-- which nothing goes on, and the first one's completion never comes.
pub start_reconnect-drops :
    (run : List ℕ → Result (Unit {0})) (a b ra rb ca cb : List ℕ) (c : Coordinator)
    → c.has_function ≡ true
    → (is_reconnecting
          (on_reconnect_timeout run (start_reconnect b rb cb (start_reconnect a ra ca c)))
        ≡ false)
      × ((on_reconnect_timeout run
            (start_reconnect b rb cb (start_reconnect a ra ca c))).coordinator_signals
          ≡ reconnect_completed b (reached (run rb))
            ∷ reconnect_started b
            ∷ reconnect_started a
            ∷ c.coordinator_signals)
unfolding start_reconnect cancel_reconnect
start_reconnect-drops run a b ra rb ca cb c h =
    on_reconnect_timeout-completes run (start_reconnect b rb cb (start_reconnect a ra ca c)) h
