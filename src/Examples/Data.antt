-- ===== src/Examples/Data.antt =====
-- The inputs of the examples: Qt's conversions on ASCII text, and a scripted card.
use yubikey_oath_krunner.Prelude.{
  ℕ, false, ◌+◌, ◌-◌, ◌/◌, ◌%◌, List, [], ◌∷◌, ◌++◌, map, leb, ◌&&◌, if◌then◌else◌, take, replicate,
}
use yubikey_oath_krunner.Prelude.Digits.{decimal}
use yubikey_oath_krunner.Prelude.Text.{Qt, codes}
use yubikey_oath_krunner.Version.{no_version}
use yubikey_oath_krunner.Session.{Reply, failed, Reconnect, not_ready, Env, Session, State}

abbrev pub ascii_upper : ℕ → ℕ
ascii_upper c = if leb b'a' c && leb c b'z' then c - 32 else c

-- A digit below 16.
abbrev hex : ℕ → ℕ
hex d = if leb d 9 then b'0' + d else b'a' + (d - 10)

unfoldable pub hex_bytes : List ℕ → List ℕ
hex_bytes [] = []
hex_bytes (b ∷ bs) = hex (b / 16 % 16) ∷ hex (b % 16) ∷ hex_bytes bs

abbrev pub ascii : Qt
ascii = record {
  to_utf8 = λ t. t;
  from_utf8 = λ t. t;
  to_upper = λ t. map ascii_upper t;
  char_to_upper = ascii_upper;
  number = decimal;
  to_hex = λ t. hex_bytes t;
}

-- What a card will answer, and how the waits for a reconnect will end. The clock stands still.
pub record Script : Type 0 where
  pub replies : List Reply
  pub reconnects : List Reconnect

abbrev pub next_reply : Script → Reply × Script
next_reply s = elim (s.replies) [ [] ↦ (failed 1, s) | r ∷ rs ↦ (r, record s { replies = rs }) ]

abbrev pub next_reconnect : Script → Reconnect × Script
next_reconnect s = elim (s.reconnects) [
  | [] ↦ (not_ready, s)
  | r ∷ rs ↦ (r, record s { reconnects = rs })
]

abbrev pub scripted : Env
scripted = record {
  W = Script;
  transmit = λ handle protocol command s. next_reply s;
  reconnect = λ command s. next_reconnect s;
  now_ms = λ s. (5000, s);
  now_secs = λ s. (59, s);
  sleep_ms = λ pause s. s;
  random_bytes = λ n s. (replicate n 7, s);
  pbkdf2 = λ password salt. take 16 (password ++ (salt ++ replicate 16 0));
  hmac_sha1 = λ text key. take 20 (text ++ (key ++ replicate 20 0));
  from_hex = λ text. text;
}

abbrev pub opened : Session
opened = record {
  card_handle = 4;
  protocol = 2;
  device_id = codes "42";
  firmware_version = no_version;
  select_serial_number = 0;
  requires_password = false;
  last_operation_ms = 0;
  rate_limit_ms = 0;
  events = [];
}

abbrev pub start : List Reply → List Reconnect → State Script
start replies reconnects = record {
  session = opened;
  world = record { replies = replies; reconnects = reconnects };
}
