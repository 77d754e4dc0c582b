-- ===== src/Device.antt =====
-- src/daemon/oath/oath_device.h and oath_device.cpp: the state of a device object, what it needs of
-- PC/SC, and the monad of its operations. The session is the device's own.
pub mod Lifecycle
pub mod Operations
pub mod Fetch
pub mod Reconnect
pub mod Create
use yubikey_oath_krunner.Prelude.{ℕ, Bool, List, Option, none, some}
use yubikey_oath_krunner.Version.{Version}
use yubikey_oath_krunner.Credential.{OathCredential}
use yubikey_oath_krunner.Select.{SelectOut}
use yubikey_oath_krunner.NitrokeyModel.{DeviceModel}
use yubikey_oath_krunner.Session.{Env, Session, State, M, Error, Result}

-- src/shared/types/device_state.h.
pub data DeviceState : Type 0 where
  disconnected connecting authenticating fetching_credentials ready error_state : DeviceState

-- The calls of PC/SC that a device makes besides SCardTransmit: SCardBeginTransaction and
-- SCardEndTransaction, SCardConnect with the protocols to try (a handle and a protocol), and
-- SCardDisconnect. A number of the first is an error.
pub record Pcsc (W : Type 0) : Type 0 where
  pub begin_transaction : ℕ → W → Option ℕ × W
  pub end_transaction : ℕ → W → W
  pub connect : ℕ → List ℕ → W → Option (ℕ × ℕ) × W
  pub disconnect : ℕ → W → W

-- The virtual functions in which the sessions of the two brands differ.
pub record SessionClass (W : Type 0) : Type 0 where
  pub parse_select : List ℕ → SelectOut → SelectOut × Bool
  pub calculate_code : List ℕ → ℕ → M W (Result (List ℕ))
  pub calculate_all : M W (Result (List OathCredential))

-- A background thread of `updateCredentialCacheAsync`: started with a password, or with the credentials
-- fetched.
pub data Update : Type 0 where
  queued : List ℕ → Update
  fetched : List OathCredential → Update

-- The signals of a device that its session does not forward.
pub data Signal : Type 0 where
  state_changed : DeviceState → Signal
  error_signalled : List ℕ → Signal
  credential_cache_fetched : List OathCredential → Signal
  needs_reconnect : List ℕ → List ℕ → List ℕ → Signal
  reconnect_ready reconnect_failed : Signal

-- `updates` are the threads of updates that have not ended. Signals are kept with the last one
-- first; those of the session are in `session`.
pub record Device : Type 0 where
  pub device_id : List ℕ
  pub reader_name : List ℕ
  pub card_handle : ℕ
  pub protocol : ℕ
  pub challenge : List ℕ
  pub requires_password : Bool
  pub firmware_version : Version
  pub device_model : DeviceModel
  pub serial_number : ℕ
  pub form_factor : ℕ
  pub state : DeviceState
  pub last_error : List ℕ
  pub password : List ℕ
  pub credentials : List OathCredential
  pub update_in_progress : Bool
  pub updates : List Update
  pub session : Session
  pub signals : List Signal

pub record DeviceWorld (W : Type 0) : Type 0 where
  pub device : Device
  pub world : W

abbrev pub D : Type 0 → Type 0 → Type 0
D W A = DeviceWorld W → Option (A × DeviceWorld W)

abbrev pub pure : {W A : Type 0} → A → D W A
pure a s = some (a, s)

infixl 5 ◌>>=◌ ◌>>◌
abbrev pub ◌>>=◌ : {W A B : Type 0} → D W A → (A → D W B) → D W B
◌>>=◌ m f s = elim (m s) [ none ↦ none | some (a, s') ↦ f a s' ]

abbrev pub ◌>>◌ : {W B : Type 0} → D W (Unit {0}) → D W B → D W B
m >> k = m >>= λ _. k

abbrev pub get_device : {W : Type 0} → D W Device
get_device s = some (s.device, s)

abbrev pub modify : {W : Type 0} → (Device → Device) → D W (Unit {0})
modify f s = some (tt, record s { device = f s.device })

-- A call of a method of `m_session`.
abbrev pub in_session : {W A : Type 0} → M W A → D W A
in_session m s = elim (m (record { session = s.device.session; world = s.world })) [
  | none ↦ none
  | some (a, t) ↦
      some (a, record { device = record (s.device) { session = t.session }; world = t.world })
]

-- A call that only touches the surroundings.
abbrev pub in_world : {W A : Type 0} → (W → A × W) → D W A
in_world f s = let (a, w) = f s.world in some (a, record s { world = w })
