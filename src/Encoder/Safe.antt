-- ===== src/Encoder/Safe.antt =====
-- What characters, and how many, an encoded name has.
use yubikey_oath_krunner.Prelude.{
  ℕ, zero, suc, ◌/◌, ◌%◌, ◌≤◌, ◌<◌, ◌≡◌, refl, Bool, true, false, List, [], ◌∷◌, ◌++◌, Option, none,
  some, arith, ltb, leb, ◌==◌, ◌&&◌, ◌||◌, if◌then◌else◌, length, take, All, Bool-cases, inl, inr,
  length-take-le,
}
use yubikey_oath_krunner.Prelude.Text.{codes, Qt}
use yubikey_oath_krunner.Encoder.{
  translit_map, lookup, is_kept, to_lower, hex_digit, hex4, encode_char, encode_chars,
  protect_digit, encode,
}

-- a to z, 0 to 9 and the underscore: what D-Bus allows in a path element, in lower case.
abbrev pub is_safe : ℕ → Bool
is_safe c = (leb b'a' c && leb c b'z') || ((leb b'0' c && leb c b'9') || c == b'_')

abbrev pub all_safe : List ℕ → Bool
all_safe [] = true
all_safe (c ∷ cs) = if is_safe c then all_safe cs else false

all_safe-append :
    (xs ys : List ℕ) → all_safe xs ≡ true → all_safe ys ≡ true → all_safe (xs ++ ys) ≡ true
all_safe-append [] ys h k = k
all_safe-append (x ∷ xs) ys h k = ground (arith, all_safe-append xs ys)

-- A map all of whose texts are safe and not empty.
abbrev safe_map : List (ℕ × List ℕ) → Bool
safe_map [] = true
safe_map ((key, []) ∷ rest) = false
safe_map ((key, c ∷ cs) ∷ rest) = if all_safe (c ∷ cs) then safe_map rest else false

-- The text is not empty and safe.
abbrev IsSafe : List ℕ → Type 0
IsSafe text = (1 ≤ length text) × (all_safe text ≡ true)

lookup-IsSafe :
    (m : List (ℕ × List ℕ)) (ch : ℕ) (text : List ℕ)
    → safe_map m ≡ true
    → lookup m ch ≡ some text
    → IsSafe text
unfolding lookup
lookup-IsSafe [] ch text h e = absurd cc
lookup-IsSafe ((key, []) ∷ rest) ch text h e = absurd cc
lookup-IsSafe ((key, c ∷ cs) ∷ rest) ch text h e = ground (arith, lookup-IsSafe rest ch text)

hex_digit_safe : (d : ℕ) → d < 16 → is_safe (hex_digit d) ≡ true
hex_digit_safe d h = ground arith

hex4-IsSafe : (unit : ℕ) → IsSafe (codes "_u" ++ hex4 unit)
unfolding hex4
hex4-IsSafe unit = (
  omega arith,
  rw
      (
        hex_digit_safe (unit / 4096 % 16) (omega arith),
        hex_digit_safe (unit / 256 % 16) (omega arith),
        hex_digit_safe (unit / 16 % 16) (omega arith),
        hex_digit_safe (unit % 16) (omega arith),
      )
      refl,
)

to_lower_safe : (ch : ℕ) → is_kept ch ≡ true → is_safe (to_lower ch) ≡ true
to_lower_safe ch h = ground arith

-- What a character that is not kept is replaced by.
replaced :
    (ch : ℕ) (o : Option (List ℕ))
    → lookup translit_map ch ≡ o
    → IsSafe (elim o [
      | some text ↦ text
      | none ↦ if ltb ch 128 then codes "_" else codes "_u" ++ hex4 ch
    ])
replaced ch (some text) e = lookup-IsSafe translit_map ch text refl e
replaced ch none e = elim (Bool-cases (ltb ch 128)) [
  | inl ascii ↦ rw ascii (omega arith, refl)
  | inr wide ↦ rw wide (hex4-IsSafe ch)
]

encode_char-IsSafe : (ch : ℕ) → IsSafe (encode_char ch)
unfolding encode_char
encode_char-IsSafe ch = elim (Bool-cases (is_kept ch)) [
  | inl kept ↦ rw kept (omega arith, rw (to_lower_safe ch kept) refl)
  | inr other ↦ rw other (replaced ch (lookup translit_map ch) refl)
]

encode_chars-safe : (name : List ℕ) → all_safe (encode_chars name) ≡ true
unfolding encode_chars
encode_chars-safe [] = refl
encode_chars-safe (ch ∷ rest) =
    all_safe-append (encode_char ch) (encode_chars rest) (encode_char-IsSafe ch).1
      (encode_chars-safe rest)

protect_digit-safe : (text : List ℕ) → all_safe text ≡ true → all_safe (protect_digit text) ≡ true
unfolding protect_digit
protect_digit-safe [] h = refl
protect_digit-safe (c ∷ cs) h = ground arith

-- No digit stands first.
abbrev pub StartsWell : List ℕ → Type 0
StartsWell [] = Unit {0}
StartsWell (c ∷ cs) = leb b'0' c && leb c b'9' ≡ false

protect_digit-StartsWell : (text : List ℕ) → StartsWell (protect_digit text)
unfolding protect_digit
protect_digit-StartsWell [] = tt
protect_digit-StartsWell (c ∷ cs) = elim (Bool-cases (leb b'0' c && leb c b'9')) [
  | inl digit ↦ rw digit refl
  | inr other ↦ rw (other, protect_digit) other
]

abbrev pub is_hex : ℕ → Bool
is_hex c = (leb b'0' c && leb c b'9') || (leb b'a' c && leb c b'f')

-- `toHex` writes hexadecimal digits, in lower case.
abbrev pub WritesHex : (List ℕ → List ℕ) → Type 0
WritesHex to_hex = (bytes : List ℕ) → All (λ c. is_hex c ≡ true) (to_hex bytes)

take-safe :
    (n : ℕ) (digits : List ℕ) → All (λ c. is_hex c ≡ true) digits → all_safe (take n digits) ≡ true
take-safe zero digits h = refl
take-safe (suc n) [] h = refl
take-safe (suc n) (c ∷ cs) h = ground (arith, take-safe n cs h.1)

-- Whatever the name, its path element has only a to z, 0 to 9 and the underscore, no digit at its
-- start and 200 characters at most.
pub encode-safe :
    (qt : Qt) (sha256 : List ℕ → List ℕ) (name : List ℕ)
    → WritesHex qt.to_hex
    → (all_safe (encode qt sha256 name) ≡ true)
      × StartsWell (encode qt sha256 name)
      × (length (encode qt sha256 name) ≤ 200)
unfolding encode
encode-safe qt sha256 name hex =
    let text : List ℕ = protect_digit (encode_chars name) in
    elim (Bool-cases (ltb 200 (length text))) [
      | inl long ↦ rw long (
        take-safe 16 (qt.to_hex (sha256 (qt.to_utf8 name))) (hex (sha256 (qt.to_utf8 name))),
        refl,
        omega (arith, length-take-le 16 (qt.to_hex (sha256 (qt.to_utf8 name)))),
      )
      | inr short ↦ rw short (
        protect_digit-safe (encode_chars name) (encode_chars-safe name),
        protect_digit-StartsWell (encode_chars name),
        ground arith,
      )
    ]
