-- ===== src/Session.antt =====
-- src/daemon/oath/yk_oath_session.h and yk_oath_session.cpp: the state of a session, what it needs of
-- its surroundings, and the monad of its operations.
pub mod Transport
pub mod Operations
pub mod Password
pub mod Nitrokey
pub mod Chain
pub mod Send
pub mod Counter
pub mod Bind
pub mod Outcomes
pub mod Authentication
pub mod PasswordChange
pub mod Fetcher
pub mod Reselect
use yubikey_oath_krunner.Prelude.{ℕ, Bool, List, [], ◌∷◌, ◌++◌, Option, none, some}
use yubikey_oath_krunner.Version.{Version}
use yubikey_oath_krunner.Credential.{Invalid}

-- What SCardTransmit returns: the bytes received, or an error code.
pub data Reply : Type 0 where
  received : List ℕ → Reply
  failed : ℕ → Reply

-- How the wait for the upper layers' reconnect ends: with their signal and the card handle and
-- protocol that `updateCardHandle` was given, or with a failure or the timeout.
pub data Reconnect : Type 0 where
  ready : ℕ → ℕ → Reconnect
  not_ready : Reconnect

-- The surroundings: PC/SC (`transmit` takes the card handle and the protocol of pioSendPci), the clock, the upper layers, randomness and cryptography. `W` is the
-- state of all that is outside the session, the card included.
pub record Env : Type 1 where
  pub W : Type 0
  pub transmit : ℕ → ℕ → List ℕ → W → Reply × W
  pub reconnect : List ℕ → W → Reconnect × W
  pub now_ms : W → ℕ × W
  pub now_secs : W → ℕ × W
  pub sleep_ms : ℕ → W → W
  pub random_bytes : ℕ → W → List ℕ × W
  pub pbkdf2 : List ℕ → List ℕ → List ℕ
  pub hmac_sha1 : List ℕ → List ℕ → List ℕ
  pub from_hex : List ℕ → List ℕ

-- The signals that a session emits.
pub data Event : Type 0 where
  touch_required : Event
  card_reset_detected : List ℕ → Event
  error_occurred : Event

-- The fields of a session, and the signals emitted so far, the last one first.
pub record Session : Type 0 where
  pub card_handle : ℕ
  pub protocol : ℕ
  pub device_id : List ℕ
  pub firmware_version : Version
  pub select_serial_number : ℕ
  pub requires_password : Bool
  pub last_operation_ms : ℕ
  pub rate_limit_ms : ℕ
  pub events : List Event

pub record State (W : Type 0) : Type 0 where
  pub session : Session
  pub world : W

-- `none` is no result: the card went on announcing more data beyond the rounds given, or the process
-- ended in a division by zero.
abbrev pub M : Type 0 → Type 0 → Type 0
M W A = State W → Option (A × State W)

abbrev pub pure : {W A : Type 0} → A → M W A
pure a s = some (a, s)

infixl 5 ◌>>=◌ ◌>>◌
abbrev pub ◌>>=◌ : {W A B : Type 0} → M W A → (A → M W B) → M W B
◌>>=◌ m f s = elim (m s) [ none ↦ none | some (a, s') ↦ f a s' ]

abbrev pub ◌>>◌ : {W B : Type 0} → M W (Unit {0}) → M W B → M W B
m >> k = m >>= λ _. k

abbrev pub emit : {W : Type 0} → Event → M W (Unit {0})
emit e s = some (tt, record s { session = record (s.session) { events = e ∷ s.session.events } })

-- The error results, by the message that the code returns.
pub data Error : Type 0 where
  no_response select_failed select_unparsed touch_needed password_required code_unparsed : Error
  no_challenge wrong_password authentication_failed : Error
  encoding_failed insufficient_space authentication_required wrong_data not_found : Error
  empty_name empty_password empty_device_id key_derivation_failed verification_failed : Error
  password_or_touch_required wrong_old_password session_lost list_failed division_fault : Error
  status_error : ℕ → Error
  invalid_data : Invalid → Error
  reselect_failed device_info_failed : Error
  credential_not_found invalid_card_handle reconnect_exhausted device_gone : Error
  begin_transaction_failed : ℕ → Error
  transaction_select_failed : Error → Error
  select_error wrong_current_password : Error → Error

pub data Result (A : Type 0) : Type 0 where
  success : A → Result A
  error : Error → Result A
