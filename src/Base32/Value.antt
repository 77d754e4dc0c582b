-- ===== src/Base32/Value.antt =====
-- What `decodeBase32` computes: the number that the characters write in base 32, without the bits
-- that fill no byte.
use yubikey_oath_krunner.Prelude.{
  ℕ, zero, suc, ◌+◌, ◌-◌, ◌*◌, ◌/◌, ◌%◌, ◌^◌, ◌≤◌, ◌<◌, ◌≡◌, refl, ◌∙◌, ap, inl, inr, Bool, true,
  false, ◌&&◌, ◌||◌, List, [], ◌∷◌, ◌++◌, none, some, arith, leb, if◌then◌else◌, length,
  length-append, All, All-append, Bool-cases,
}
use yubikey_oath_krunner.Prelude.Bytes.{byte, IsByte}
use yubikey_oath_krunner.Prelude.Text.{Qt}
use yubikey_oath_krunner.Base32.{alphabet, index_of, remove_padding, decode_loop, decode_base32}

-- A to Z stand for 0 to 25, 2 to 7 for 26 to 31.
abbrev pub is_base32 : ℕ → Bool
is_base32 c = (leb b'A' c && leb c b'Z') || (leb b'2' c && leb c b'7')

abbrev pub char_value : ℕ → ℕ
char_value c = if leb b'A' c then c - b'A' else c - b'2' + 26

pub index_of-alphabet :
    (c : ℕ) → index_of alphabet c 0 ≡ (if is_base32 c then some (char_value c) else none)
unfolding index_of
index_of-alphabet c = ground arith

index_of-valid : (c : ℕ) → is_base32 c ≡ true → index_of alphabet c 0 ≡ some (char_value c)
index_of-valid c h = index_of-alphabet c ∙ ap (λ b. if b then some (char_value c) else none) h

index_of-invalid : (c : ℕ) → is_base32 c ≡ false → index_of alphabet c 0 ≡ none
index_of-invalid c h = index_of-alphabet c ∙ ap (λ b. if b then some (char_value c) else none) h

-- The number that the characters write behind the digits of `v`.
abbrev pub number32 : ℕ → List ℕ → ℕ
number32 v [] = v
number32 v (c ∷ cs) = number32 (v * 32 + char_value c) cs

abbrev pub number256 : ℕ → List ℕ → ℕ
number256 v [] = v
number256 v (b ∷ bs) = number256 (v * 256 + b) bs

number256-append : (v b : ℕ) (bs : List ℕ) → number256 v (bs ++ b ∷ []) ≡ number256 v bs * 256 + b
number256-append v b [] = refl
number256-append v b (x ∷ bs) = number256-append (v * 256 + x) b bs

-- The buffer holds the last 64 bits of the number read so far.
buffer_step : (v x : ℕ) → x < 32 → v % 2 ^ 64 * 32 % 2 ^ 64 + x ≡ (v * 32 + x) % 2 ^ 64
buffer_step v x h = omega arith

byte_step :
    (bits v x : ℕ)
    → 3 ≤ bits
    → bits < 8
    → x < 32
    → v / 2 ^ bits * 256 + byte ((v * 32 + x) % 2 ^ 64 / 2 ^ (bits + 5 - 8))
      ≡ (v * 32 + x) / 2 ^ (bits + 5 - 8)
byte_step zero v x lo hi h = absurd (omega arith)
byte_step (suc zero) v x lo hi h = absurd (omega arith)
byte_step (suc (suc zero)) v x lo hi h = absurd (omega arith)
byte_step (suc (suc (suc zero))) v x lo hi h = omega arith
byte_step (suc (suc (suc (suc zero)))) v x lo hi h = omega arith
byte_step (suc (suc (suc (suc (suc zero))))) v x lo hi h = omega arith
byte_step (suc (suc (suc (suc (suc (suc zero)))))) v x lo hi h = omega arith
byte_step (suc (suc (suc (suc (suc (suc (suc zero))))))) v x lo hi h = omega arith
byte_step (suc (suc (suc (suc (suc (suc (suc (suc n)))))))) v x lo hi h = absurd (omega arith)

wait_step : (bits v x : ℕ) → bits < 3 → x < 32 → v / 2 ^ bits ≡ (v * 32 + x) / 2 ^ (bits + 5)
wait_step zero v x hi h = omega arith
wait_step (suc zero) v x hi h = omega arith
wait_step (suc (suc zero)) v x hi h = omega arith
wait_step (suc (suc (suc n))) v x hi h = absurd (omega arith)

char_value-lt : (c : ℕ) → is_base32 c ≡ true → char_value c < 32
char_value-lt c h = ground arith

abbrev pub all_base32 : List ℕ → Bool
all_base32 [] = true
all_base32 (c ∷ cs) = if is_base32 c then all_base32 cs else false

-- The state of the loop after some characters: `v` is the number that they write.
record Reads (v buffer bits : ℕ) (result : List ℕ) : Type 0 where
  buffered : buffer ≡ v % 2 ^ 64
  short : bits < 8
  whole : number256 0 result ≡ v / 2 ^ bits
  bytes : All IsByte result

-- What it returns for `n` more characters `cs`.
abbrev pub Decodes : ℕ → ℕ → List ℕ → Type 0
Decodes n v out =
    (length out ≡ 5 * n / 8) × (number256 0 out ≡ v / 2 ^ (5 * n % 8)) × All IsByte out

step-Reads :
    (c v buffer bits : ℕ) (result : List ℕ)
    → is_base32 c ≡ true
    → 3 ≤ bits
    → Reads v buffer bits result
    → Reads
        (v * 32 + char_value c)
        (buffer * 32 % 2 ^ 64 + char_value c)
        (bits + 5 - 8)
        (result ++ byte ((buffer * 32 % 2 ^ 64 + char_value c) / 2 ^ (bits + 5 - 8)) ∷ [])
step-Reads c v buffer bits result valid lo r = record {
  buffered = rw (r.buffered) (buffer_step v (char_value c) (char_value-lt c valid));
  short = omega (arith, r.short);
  whole =
      number256-append 0 _ result
      ∙ rw (r.buffered, buffer_step v (char_value c) (char_value-lt c valid), r.whole)
          (byte_step bits v (char_value c) lo r.short (char_value-lt c valid));
  bytes = All-append IsByte result _ r.bytes (omega arith, tt);
}

wait-Reads :
    (c v buffer bits : ℕ) (result : List ℕ)
    → is_base32 c ≡ true
    → bits < 3
    → Reads v buffer bits result
    → Reads (v * 32 + char_value c) (buffer * 32 % 2 ^ 64 + char_value c) (bits + 5) result
wait-Reads c v buffer bits result valid hi r = record {
  buffered = rw (r.buffered) (buffer_step v (char_value c) (char_value-lt c valid));
  short = omega arith;
  whole = r.whole ∙ wait_step bits v (char_value c) hi (char_value-lt c valid);
  bytes = r.bytes;
}

-- One round, by what the test of the bits says.
decode_loop-step :
    (c buffer bits : ℕ) (cs result : List ℕ)
    → is_base32 c ≡ true
    → decode_loop (c ∷ cs) buffer bits result ≡ (
        let buffer' = buffer * 32 % 2 ^ 64 + char_value c in
        if leb 8 (bits + 5)
        then decode_loop cs buffer'
            (bits + 5 - 8)
            (result ++ byte (buffer' / 2 ^ (bits + 5 - 8)) ∷ [])
        else decode_loop cs buffer' (bits + 5) result)
unfolding decode_loop
decode_loop-step c buffer bits cs result valid = rw (index_of-valid c valid, decode_loop)

decode_loop-number :
    (cs : List ℕ) (v buffer bits n m : ℕ) (result : List ℕ)
    → all_base32 cs ≡ true
    → Reads v buffer bits result
    → 8 * length result + bits ≡ 5 * n
    → n + length cs ≡ m
    → (out : List ℕ) × (decode_loop cs buffer bits result ≡ some out)
      × Decodes m (number32 v cs) out
decode_loop-number [] v buffer bits n m result valid r count total =
    let e : bits ≡ 5 * m % 8 = omega (arith, r.short) in
    (
      result,
      (unfold decode_loop in refl),
      (omega (arith, r.short), r.whole ∙ ap (λ k. v / 2 ^ k) e, r.bytes),
    )
decode_loop-number (c ∷ cs) v buffer bits n m result valid r count total =
    elim (Bool-cases (leb 8 (bits + 5))) [
      | inl full ↦
          rw (decode_loop-step c buffer bits cs result here, full)
            (decode_loop-number cs (v * 32 + char_value c) _ _ (suc n) m _ later
              (step-Reads c v buffer bits result here (ground arith) r)
              (omega (arith, length-append result (next ∷ []), full_lem full)) (omega arith))
      | inr waiting ↦
          rw (decode_loop-step c buffer bits cs result here, waiting)
            (decode_loop-number cs (v * 32 + char_value c) _ _ (suc n) m result later
              (wait-Reads c v buffer bits result here (ground arith) r) (omega arith) (omega arith))
    ]
  where
    next : ℕ
    next = byte ((buffer * 32 % 2 ^ 64 + char_value c) / 2 ^ (bits + 5 - 8))

    here : is_base32 c ≡ true
    here = ground arith

    later : all_base32 cs ≡ true
    later = ground arith

    full_lem : leb 8 (bits + 5) ≡ true → 3 ≤ bits
    full_lem h = ground arith

decode_loop-valid :
    (cs : List ℕ)
    → all_base32 cs ≡ true
    → (out : List ℕ) × (decode_loop cs 0 0 [] ≡ some out) × Decodes (length cs) (number32 0 cs) out
decode_loop-valid cs valid =
    decode_loop-number cs 0 0 0 0 (length cs) [] valid
      (record { buffered = refl; short = omega arith; whole = refl; bytes = tt }) (omega arith)
      (omega arith)

decode_loop-invalid :
    (cs result : List ℕ) (buffer bits : ℕ)
    → all_base32 cs ≡ false
    → decode_loop cs buffer bits result ≡ none
unfolding decode_loop
decode_loop-invalid [] result buffer bits h = cc
decode_loop-invalid (c ∷ cs) result buffer bits h = elim (Bool-cases (is_base32 c)) [
  | inl valid ↦ rw (decode_loop-step c buffer bits cs result valid) (
      ground (
        arith,
        decode_loop-invalid cs
            (result ++ byte ((buffer * 32 % 2 ^ 64 + char_value c) / 2 ^ (bits + 5 - 8)) ∷ [])
            (buffer * 32 % 2 ^ 64 + char_value c) (bits + 5 - 8),
        decode_loop-invalid cs result (buffer * 32 % 2 ^ 64 + char_value c) (bits + 5),
      ))
  | inr bad ↦ rw (index_of-invalid c bad, decode_loop)
]

-- The characters that `decodeBase32` looks at: upper case, without padding.
abbrev pub cleaned : Qt → List ℕ → List ℕ
cleaned qt base32 = remove_padding (qt.to_upper base32)

-- Text that is all Base32 decodes to the whole bytes of the number that it writes: 5 n / 8 bytes for
-- n characters, whose big-endian value is that number without its last 5 n % 8 bits.
pub decode_base32-valid :
    (qt : Qt) (base32 : List ℕ)
    → all_base32 (cleaned qt base32) ≡ true
    → Decodes
        (length (cleaned qt base32))
        (number32 0 (cleaned qt base32))
        (decode_base32 qt base32)
unfolding decode_base32
decode_base32-valid qt base32 valid =
    let (out, e, d) = decode_loop-valid (cleaned qt base32) valid in rw (e) d

-- A character outside A to Z and 2 to 7, other than padding, makes the result empty, whatever was
-- decoded before it.
pub decode_base32-invalid :
    (qt : Qt) (base32 : List ℕ)
    → all_base32 (cleaned qt base32) ≡ false
    → decode_base32 qt base32 ≡ []
unfolding decode_base32
decode_base32-invalid qt base32 h = rw (decode_loop-invalid (cleaned qt base32) [] 0 0 h)
