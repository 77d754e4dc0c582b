-- ===== src/Encoder.antt =====
-- src/daemon/utils/credential_id_encoder.cpp: a credential's name as an element of a D-Bus object
-- path. Texts are lists of UTF-16 code units.
pub mod Safe
use yubikey_oath_krunner.Prelude.{
  ℕ, ◌+◌, ◌-◌, ◌/◌, ◌%◌, Bool, true, false, List, [], ◌∷◌, ◌++◌, Option, none, some, ltb, leb, ◌==◌,
  ◌&&◌, ◌||◌, if◌then◌else◌, length, take,
}
use yubikey_oath_krunner.Prelude.Text.{codes, Qt}

-- `translitMap`.
abbrev pub translit_map : List (ℕ × List ℕ)
translit_map =
    (0x0105, codes "a")
    ∷ (0x0107, codes "c")
    ∷ (0x0119, codes "e")
    ∷ (0x0142, codes "l")
    ∷ (0x0144, codes "n")
    ∷ (0x00f3, codes "o")
    ∷ (0x015b, codes "s")
    ∷ (0x017a, codes "z")
    ∷ (0x017c, codes "z")
    ∷ (0x0104, codes "a")
    ∷ (0x0106, codes "c")
    ∷ (0x0118, codes "e")
    ∷ (0x0141, codes "l")
    ∷ (0x0143, codes "n")
    ∷ (0x00d3, codes "o")
    ∷ (0x015a, codes "s")
    ∷ (0x0179, codes "z")
    ∷ (0x017b, codes "z")
    ∷ (0x40, codes "_at_")
    ∷ (0x2e, codes "_dot_")
    ∷ (0x3a, codes "_colon_")
    ∷ (0x20, codes "_")
    ∷ (0x28, codes "_")
    ∷ (0x29, codes "_")
    ∷ (0x2d, codes "_")
    ∷ (0x2b, codes "_plus_")
    ∷ (0x3d, codes "_eq_")
    ∷ (0x2f, codes "_slash_")
    ∷ (0x5c, codes "_backslash_")
    ∷ (0x26, codes "_and_")
    ∷ (0x25, codes "_percent_")
    ∷ (0x23, codes "_hash_")
    ∷ (0x21, codes "_excl_")
    ∷ (0x3f, codes "_q_")
    ∷ (0x2a, codes "_star_")
    ∷ (0x2c, codes "_")
    ∷ (0x3b, codes "_")
    ∷ (0x27, codes "_")
    ∷ (0x22, codes "_")
    ∷ (0x5b, codes "_")
    ∷ (0x5d, codes "_")
    ∷ (0x7b, codes "_")
    ∷ (0x7d, codes "_")
    ∷ (0x3c, codes "_lt_")
    ∷ (0x3e, codes "_gt_")
    ∷ (0x7c, codes "_pipe_")
    ∷ (0x7e, codes "_tilde_")
    ∷ (0x60, codes "_")
    ∷ []

-- `value(ch)`, with `none` where `contains(ch)` does not hold.
unfoldable pub lookup : List (ℕ × List ℕ) → ℕ → Option (List ℕ)
lookup [] ch = none
lookup ((key, text) ∷ rest) ch = if key == ch then some text else lookup rest ch

abbrev pub is_upper : ℕ → Bool
is_upper ch = leb b'A' ch && leb ch b'Z'

abbrev pub is_kept : ℕ → Bool
is_kept ch =
    is_upper ch || ((leb b'a' ch && leb ch b'z') || ((leb b'0' ch && leb ch b'9') || ch == b'_'))

-- `toLower` of an ASCII letter, digit or underscore.
abbrev pub to_lower : ℕ → ℕ
to_lower ch = if is_upper ch then ch + 32 else ch

abbrev pub hex_digit : ℕ → ℕ
hex_digit d = if ltb d 10 then b'0' + d else b'a' + (d - 10)

-- `arg(unit, 4, 16, '0')` of a `ushort`.
unfoldable pub hex4 : ℕ → List ℕ
hex4 unit =
    hex_digit (unit / 4096 % 16)
    ∷ hex_digit (unit / 256 % 16)
    ∷ hex_digit (unit / 16 % 16)
    ∷ hex_digit (unit % 16)
    ∷ []

unfoldable pub encode_char : ℕ → List ℕ
unfolding hex4 lookup
encode_char ch = if is_kept ch then to_lower ch ∷ [] else elim (lookup translit_map ch) [
  | some text ↦ text
  | none ↦ if ltb ch 128 then codes "_" else codes "_u" ++ hex4 ch
]

-- The loop over the characters.
unfoldable pub encode_chars : List ℕ → List ℕ
encode_chars [] = []
encode_chars (ch ∷ rest) = encode_char ch ++ encode_chars rest

-- `encoded[0].isDigit()` of an encoded text, which is ASCII.
unfoldable pub protect_digit : List ℕ → List ℕ
protect_digit [] = []
protect_digit (ch ∷ rest) = if leb b'0' ch && leb ch b'9' then b'c' ∷ ch ∷ rest else ch ∷ rest

-- `encode`; the hash is SHA-256.
unfoldable pub encode : Qt → (List ℕ → List ℕ) → List ℕ → List ℕ
encode qt sha256 credential_name =
    let encoded = protect_digit (encode_chars credential_name) in
    if ltb 200 (length encoded)
    then codes "cred_" ++ take 16 (qt.to_hex (sha256 (qt.to_utf8 credential_name)))
    else encoded
