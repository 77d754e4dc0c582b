-- ===== src/Status.antt =====
-- src/daemon/oath/oath_protocol.cpp: the status word at the end of a response.
pub mod Laws
use yubikey_oath_krunner.Prelude.{
  ℕ, ◌+◌, ◌-◌, ◌*◌, ◌/◌, Bool, List, [], ◌∷◌, ltb, ◌==◌, if◌then◌else◌, length, get_or, take,
}

abbrev pub sw_success : ℕ
sw_success = 0x9000

abbrev pub sw_security_status_not_satisfied : ℕ
sw_security_status_not_satisfied = 0x6982

abbrev pub sw_no_such_object : ℕ
sw_no_such_object = 0x6984

abbrev pub sw_conditions_not_satisfied : ℕ
sw_conditions_not_satisfied = 0x6985

abbrev pub sw_wrong_data : ℕ
sw_wrong_data = 0x6a80

abbrev pub sw_insufficient_space : ℕ
sw_insufficient_space = 0x6a84

abbrev pub sw_ins_not_supported : ℕ
sw_ins_not_supported = 0x6d00

abbrev pub sw_cla_not_supported : ℕ
sw_cla_not_supported = 0x6e00

unfoldable pub get_status_word : List ℕ → ℕ
get_status_word response =
    let n = length response in
    if ltb n 2 then 0 else get_or response (n - 2) 0 * 256 + get_or response (n - 1) 0

-- `(sw & 0xFF00) == 0x6100` of a `quint16`.
unfoldable pub has_more_data : ℕ → Bool
has_more_data sw = sw / 256 * 256 == 0x6100

unfoldable pub is_success : ℕ → Bool
is_success sw = sw == sw_success

-- `response.left(response.length() - 2)`.
unfoldable pub payload : List ℕ → List ℕ
payload response = take (length response - 2) response
