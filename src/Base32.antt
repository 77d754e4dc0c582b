-- ===== src/Base32.antt =====
-- src/daemon/oath/oath_protocol.cpp, decodeBase32.
pub mod Value
use yubikey_oath_krunner.Prelude.{
  ℕ, suc, ◌+◌, ◌-◌, ◌*◌, ◌/◌, ◌%◌, ◌^◌, List, [], ◌∷◌, ◌++◌, Option, none, some, leb, ◌==◌,
  if◌then◌else◌,
}
use yubikey_oath_krunner.Prelude.Bytes.{byte}
use yubikey_oath_krunner.Prelude.Text.{codes, Qt}

abbrev pub alphabet : List ℕ
alphabet = codes "ABCDEFGHIJKLMNOPQRSTUVWXYZ234567"

-- `indexOf`, counted from `i`; `none` for -1.
unfoldable pub index_of : List ℕ → ℕ → ℕ → Option ℕ
index_of [] ch i = none
index_of (c ∷ cs) ch i = if c == ch then some i else index_of cs ch (suc i)

-- `remove(QLatin1Char('='))`.
unfoldable pub remove_padding : List ℕ → List ℕ
remove_padding [] = []
remove_padding (c ∷ cs) = if c == b'=' then remove_padding cs else c ∷ remove_padding cs

-- The loop over the characters. The low five bits of `buffer << 5` are zero and `value` is below 32,
-- so `|` is `+`; the buffer is a `quint64`. `none` is the return on an invalid character.
unfoldable pub decode_loop : List ℕ → ℕ → ℕ → List ℕ → Option (List ℕ)
decode_loop [] buffer bits result = some result
decode_loop (ch ∷ rest) buffer bits result = elim (index_of alphabet ch 0) [
  | none ↦ none
  | some value ↦
      let buffer' = buffer * 32 % 2 ^ 64 + value in
      let bits' = bits + 5 in
      let more =
        decode_loop rest buffer' (bits' - 8) (result ++ byte (buffer' / 2 ^ (bits' - 8)) ∷ []) in
      let wait = decode_loop rest buffer' bits' result in if leb 8 bits' then more else wait
]

unfoldable pub or_empty : Option (List ℕ) → List ℕ
or_empty none = []
or_empty (some r) = r

unfoldable pub decode_base32 : Qt → List ℕ → List ℕ
unfolding or_empty decode_loop remove_padding index_of
decode_base32 qt base32 = or_empty (decode_loop (remove_padding (qt.to_upper base32)) 0 0 [])
