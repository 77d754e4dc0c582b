-- ===== src/Device/Reconnect.antt =====
-- src/daemon/oath/oath_device.cpp: reconnectCardHandle.
pub mod Attempts
use yubikey_oath_krunner.Prelude.{
  ℕ, Bool, true, false, List, [], ◌∷◌, Option, none, some, ◌==◌, if◌then◌else◌,
}
use yubikey_oath_krunner.Prelude.Text.{Qt}
use yubikey_oath_krunner.Version.{no_version}
use yubikey_oath_krunner.Session.{Env, Session, Result, success, error, reconnect_exhausted}
use yubikey_oath_krunner.Session.Transport.{update_card_handle}
use yubikey_oath_krunner.Session.Operations.{select_oath_application}
use yubikey_oath_krunner.Device.{
  Pcsc, SessionClass, Device, D, pure, ◌>>=◌, ◌>>◌, get_device, modify, in_world,
}

-- A session as its constructor leaves it.
abbrev pub new_session : ℕ → ℕ → List ℕ → Session
new_session handle protocol device_id = record {
  card_handle = handle;
  protocol = protocol;
  device_id = device_id;
  firmware_version = no_version;
  select_serial_number = 0;
  requires_password = false;
  last_operation_ms = 0;
  rate_limit_ms = 0;
  events = [];
}

-- SCARD_PROTOCOL_T0 | SCARD_PROTOCOL_T1.
abbrev pub t0_or_t1 : ℕ
t0_or_t1 = 3

-- The waits in milliseconds before the attempts, the first of which has none.
abbrev pub delays : List ℕ
delays = 0 ∷ 100 ∷ 200 ∷ 400 ∷ 800 ∷ 1600 ∷ []

unfoldable pub store_handle : ℕ → ℕ → Device → Device
unfolding update_card_handle
store_handle handle protocol d = record d {
  card_handle = handle;
  session = update_card_handle handle protocol d.session;
}

module _ (env : Env) (pcsc : Pcsc (env.W)) (class : SessionClass (env.W)) (qt : Qt) (fuel : ℕ) where
  open env use {W, sleep_ms}

  -- SELECT in a session of its own, whose state is dropped.
  unfoldable pub select_on : ℕ → ℕ → D W (Result (List ℕ))
  select_on handle protocol s =
      elim (select_oath_application env qt fuel class.parse_select
        (record { session = new_session handle protocol s.device.device_id; world = s.world })) [
          | none ↦ none
          | some (result, t) ↦ some (result, record s { world = t.world })
        ]

  -- The handle is kept where SELECT works on it, and closed again otherwise.
  unfoldable pub keep_or_close : ℕ → ℕ → Result (List ℕ) → D W Bool
  unfolding store_handle
  keep_or_close handle protocol (error e) = do
    in_world (λ w. (tt, pcsc.disconnect handle w))
    pure false
  keep_or_close handle protocol (success _) = do modify (store_handle handle protocol); pure true

  unfoldable pub try_card : Option (ℕ × ℕ) → D W Bool
  unfolding select_on keep_or_close
  try_card none = pure false
  try_card (some (handle, protocol)) = do
    selected ← select_on handle protocol
    keep_or_close handle protocol selected

  -- One attempt: whether it gave a card handle on which SELECT works.
  unfoldable pub attempt : List ℕ → D W Bool
  unfolding try_card
  attempt reader = do connected ← in_world (pcsc.connect t0_or_t1 reader); try_card connected

  unfoldable pub wait_ms : ℕ → D W (Unit {0})
  wait_ms ms = in_world (λ w. (tt, if ms == 0 then w else sleep_ms ms w))

  unfoldable pub attempts : List ℕ → List ℕ → D W (Result (Unit {0}))
  attempts reader [] = pure (error reconnect_exhausted)
  attempts reader (ms ∷ later) = do
    wait_ms ms
    reached ← attempt reader
    elim reached [ true ↦ pure (success tt) | false ↦ attempts reader later ]

  unfoldable pub drop_handle : D W (Unit {0})
  drop_handle = do
    d ← get_device
    if d.card_handle == 0 then pure tt else (do
      in_world (λ w. (tt, pcsc.disconnect d.card_handle w))
      modify (λ old. record old { card_handle = 0 }))

  unfoldable pub reconnect_card_handle : List ℕ → D W (Result (Unit {0}))
  unfolding drop_handle attempts
  reconnect_card_handle reader = do drop_handle; attempts reader delays
