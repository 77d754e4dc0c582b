-- ===== src/Device/Lifecycle.antt =====
-- src/shared/types/device_state.cpp, and setState and setErrorState of src/daemon/oath/oath_device.cpp.
use yubikey_oath_krunner.Prelude.{Bool, ℕ, List, [], ◌∷◌, ◌==◌, ◌||◌, not, if◌then◌else◌, list_eq}
use yubikey_oath_krunner.Prelude.Text.{codes}
use yubikey_oath_krunner.Device.{
  DeviceState, disconnected, connecting, authenticating, fetching_credentials, ready, error_state,
  Device, state_changed, error_signalled,
}

-- The numbers of the enumeration.
abbrev pub state_code : DeviceState → ℕ
state_code disconnected = 0x00
state_code connecting = 0x01
state_code authenticating = 0x02
state_code fetching_credentials = 0x03
state_code ready = 0x04
state_code error_state = 0xff

abbrev pub same_state : DeviceState → DeviceState → Bool
same_state a b = state_code a == state_code b

unfoldable pub device_state_to_string : DeviceState → List ℕ
device_state_to_string disconnected = codes "disconnected"
device_state_to_string connecting = codes "connecting"
device_state_to_string authenticating = codes "authenticating"
device_state_to_string fetching_credentials = codes "fetching_credentials"
device_state_to_string ready = codes "ready"
device_state_to_string error_state = codes "error"

-- `to_lower` is QString::toLower.
unfoldable pub device_state_from_string : (List ℕ → List ℕ) → List ℕ → DeviceState
unfolding list_eq
device_state_from_string to_lower text =
    let lower = to_lower text in
    if list_eq lower (codes "disconnected")
    then disconnected
    else if list_eq lower (codes "connecting")
    then connecting
    else if list_eq lower (codes "authenticating")
    then authenticating
    else if list_eq lower (codes "fetching_credentials") || list_eq lower (codes "fetching")
    then fetching_credentials
    else if list_eq lower (codes "ready")
    then ready
    else if list_eq lower (codes "error")
    then error_state
    else disconnected

unfoldable pub is_device_state_transitional : DeviceState → Bool
is_device_state_transitional state =
    same_state state connecting
    || (same_state state authenticating || same_state state fetching_credentials)

unfoldable pub is_device_state_ready : DeviceState → Bool
is_device_state_ready state = same_state state ready

unfoldable pub is_device_state_visible : DeviceState → Bool
is_device_state_visible state = not (same_state state disconnected)

-- No signal and no change where the state is the old one. Leaving the error state clears the error.
unfoldable pub set_state : DeviceState → Device → Device
set_state state d = if same_state d.state state then d else record d {
  state = state;
  last_error = if same_state state error_state then d.last_error else [];
  signals = state_changed state ∷ d.signals;
}

unfoldable pub set_error_state : List ℕ → Device → Device
set_error_state error d = record d {
  state = error_state;
  last_error = error;
  signals = error_signalled error ∷ state_changed error_state ∷ d.signals;
}
