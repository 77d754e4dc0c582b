-- ===== src/Command/Put.antt =====
-- The PUT command that adds a credential.
use yubikey_oath_krunner.Prelude.{
  ℕ, zero, suc, ap, sym, ◌∙◌, Bool-cases, inl, inr, ◌+◌, ◌-◌, ◌≤◌, ◌<◌, ◌≡◌, ◌≢◌, refl, List, [],
  ◌∷◌, ◌++◌, some, none, arith, if◌then◌else◌, ltb, is_empty, length, take, replicate,
  length-append, length-replicate, length-take-le,
}
use yubikey_oath_krunner.Prelude.Int.{byte_of}
use yubikey_oath_krunner.Prelude.Bytes.{byte}
use yubikey_oath_krunner.Prelude.Text.{Qt}
use yubikey_oath_krunner.Tlv.{tlv, find_tlv_tag}
use yubikey_oath_krunner.Tlv.Walk.{Tlvs, more, Tlvs-total, find_tlv_tag-Tlvs}
use yubikey_oath_krunner.Tlv.RoundTrip.{next_tlv-tlv}
use yubikey_oath_krunner.Base32.{decode_base32}
use yubikey_oath_krunner.Credential.{OathCredentialData}
use yubikey_oath_krunner.Command.{
  tag_name, tag_key, limit_name, pad_key, algo_byte, touch_property, initial_counter, put_data,
  create_put_command,
}
use yubikey_oath_krunner.Command.Apdu.{parse_apdu, parse_apdu-data}

length-left : (k : ℕ) (n : List ℕ) → length (if ltb k (length n) then take k n else n) ≤ k
length-left k n = ground (arith, length-take-le k n)

length-limit_name : (n : List ℕ) → length (limit_name n) ≤ 64
unfolding limit_name
length-limit_name n = length-left 64 n

length-pad_key : (k : List ℕ) → length (pad_key k) ≤ length k + 14
unfolding pad_key
length-pad_key k = omega (
  arith,
  length-append k (replicate (14 - length k) 0x00),
  length-replicate {A = ℕ} (14 - length k) 0x00,
)

-- The value of the KEY record.
abbrev pub key_value : OathCredentialData → List ℕ → List ℕ
key_value d key = algo_byte d.type d.algorithm ∷ byte_of d.digits ∷ pad_key key

module _ (name key : List ℕ) (d : OathCredentialData) (short : length key ≤ 160) where
  abbrev tail : List ℕ
  tail = touch_property d.require_touch ++ initial_counter d.type d.counter

  length-tail : length tail ≤ 8
  unfolding touch_property initial_counter
  length-tail = ground arith

  length-put_data : length (put_data name key d) < 256
  unfolding put_data tlv
  length-put_data = omega (
    arith,
    length-append (limit_name name) (tlv tag_key (key_value d key) ++ tail),
    length-append (pad_key key) tail,
    length-limit_name name,
    length-pad_key key,
    length-tail,
  )

  put_data-Tlvs :
      Tlvs
        (put_data name key d)
        ((tag_name, limit_name name) ∷ (tag_key, key_value d key) ∷ (Tlvs-total tail).0)
  unfolding put_data
  put_data-Tlvs =
      more
        (next_tlv-tlv tag_name (limit_name name) _ (omega arith)
          (omega (arith, length-limit_name name)))
        (more
          (next_tlv-tlv tag_key (key_value d key) tail (omega arith)
            (omega (arith, length-pad_key key)))
          (Tlvs-total tail).1)

  put_data_finds :
      (find_tlv_tag (put_data name key d) tag_name ≡ limit_name name)
      × (find_tlv_tag (put_data name key d) tag_key ≡ key_value d key)
  put_data_finds =
      (find_tlv_tag-Tlvs tag_name _ _ put_data-Tlvs, find_tlv_tag-Tlvs tag_key _ _ put_data-Tlvs)

  parse_put :
      parse_apdu
        (0x00 ∷ 0x01 ∷ 0x00 ∷ 0x00 ∷ byte (length (put_data name key d)) ∷ put_data name key d)
      ≡ some
          (record { cla = 0; ins = 0x01; p1 = 0; p2 = 0; content = put_data name key d; le = none })
  unfolding put_data tlv
  parse_put = parse_apdu-data 0 0x01 0 0 _ _ _ (omega (arith, length-put_data))

take-all : (k : ℕ) (n : List ℕ) → length n ≤ k → take k n ≡ n
take-all zero [] h = refl
take-all zero (x ∷ xs) h = absurd (omega arith)
take-all (suc k) [] h = refl
take-all (suc k) (x ∷ xs) h = ap (◌∷◌ x) (take-all k xs (omega arith))

left-take : (k : ℕ) (n : List ℕ) → (if ltb k (length n) then take k n else n) ≡ take k n
left-take k n = elim (Bool-cases (ltb k (length n))) [
  | inl long ↦ rw long refl
  | inr short ↦ rw short (sym (take-all k n (ground arith)))
]

limit_name-take : (n : List ℕ) → limit_name n ≡ take 64 n
unfolding limit_name
limit_name-take n = left-take 64 n

-- The KEY record: algorithm and digits, and the key followed by zeros up to 14 bytes.
abbrev pub key_record : OathCredentialData → List ℕ → List ℕ
key_record d key =
    algo_byte d.type d.algorithm ∷ byte_of d.digits ∷ (key ++ replicate (14 - length key) 0x00)

key_value-key_record : (d : OathCredentialData) (key : List ℕ) → key_value d key ≡ key_record d key
unfolding pad_key
key_value-key_record d key = refl

-- What a card finds in a PUT command: its data, whose length is Lc, hold the name, cut to 64 bytes,
-- and the key record.
abbrev pub PutCarries : List ℕ → List ℕ → OathCredentialData → List ℕ → Type 0
PutCarries name key d command =
    (content : List ℕ) × (parse_apdu command
      ≡ some (record { cla = 0; ins = 0x01; p1 = 0; p2 = 0; content = content; le = none }))
    × (find_tlv_tag content tag_name ≡ take 64 name)
    × (find_tlv_tag content tag_key ≡ key_record d key)

built-PutCarries :
    (name key : List ℕ) (d : OathCredentialData)
    → length key ≤ 160
    → key ≢ []
    → PutCarries name key d (
        if is_empty key
        then []
        else 0x00 ∷ 0x01 ∷ 0x00 ∷ 0x00 ∷ byte (length (put_data name key d)) ∷ put_data name key d)
unfolding tlv
built-PutCarries name [] d short nonempty = absurd (nonempty refl)
built-PutCarries name (k ∷ ks) d short nonempty =
    let (found_name, found_key) = put_data_finds name (k ∷ ks) d short in
    (
      put_data name (k ∷ ks) d,
      parse_put name (k ∷ ks) d short,
      found_name ∙ limit_name-take name,
      found_key ∙ key_value-key_record d (k ∷ ks),
    )

-- If the secret decodes to 1 to 160 bytes, PUT is one APDU that carries the name, cut to 64 bytes,
-- and the key, padded to 14 bytes, behind its algorithm and digits.
pub put_apdu :
    (qt : Qt) (d : OathCredentialData)
    → decode_base32 qt d.secret ≢ []
    → length (decode_base32 qt d.secret) ≤ 160
    → PutCarries (qt.to_utf8 d.name) (decode_base32 qt d.secret) d (create_put_command qt d)
unfolding create_put_command
put_apdu qt d nonempty short =
    built-PutCarries (qt.to_utf8 d.name) (decode_base32 qt d.secret) d short nonempty
