-- ===== src/Status/Laws.antt =====
-- A response is its data followed by the two bytes of the status word.
use yubikey_oath_krunner.Prelude.{
  ℕ, suc, ◌+◌, ◌-◌, ◌*◌, ◌≡◌, refl, List, [], ◌∷◌, ◌++◌, arith, ap, true, false, not, is_empty,
  if◌then◌else◌, ltb, length, get_or, length-append, take-append,
}
use yubikey_oath_krunner.Status.{get_status_word, is_success, payload}

get_or-append : (d e : List ℕ) (k : ℕ) → get_or (d ++ e) (length d + k) 0 ≡ get_or e k 0
get_or-append [] e k = let z : 0 + k ≡ k = omega arith in rw z
get_or-append (x ∷ d) e k =
    let z : suc (length d) + k ≡ suc (length d + k) = omega arith in rw z (get_or-append d e k)

pub get_or_second_last :
    (d : List ℕ) (a b : ℕ) → get_or (d ++ a ∷ b ∷ []) (length (d ++ a ∷ b ∷ []) - 2) 0 ≡ a
get_or_second_last d a b =
    let e : length (d ++ a ∷ b ∷ []) - 2 ≡ length d + 0 =
      omega (arith, length-append d (a ∷ b ∷ [])) in
    rw e (get_or-append d (a ∷ b ∷ []) 0)

pub get_or_last :
    (d : List ℕ) (a b : ℕ) → get_or (d ++ a ∷ b ∷ []) (length (d ++ a ∷ b ∷ []) - 1) 0 ≡ b
get_or_last d a b =
    let e : length (d ++ a ∷ b ∷ []) - 1 ≡ length d + 1 =
      omega (arith, length-append d (a ∷ b ∷ [])) in
    rw e (get_or-append d (a ∷ b ∷ []) 1)

pub two_bytes : (d : List ℕ) (a b : ℕ) → ltb (length (d ++ a ∷ b ∷ [])) 2 ≡ false
two_bytes d a b = ground (arith, length-append d (a ∷ b ∷ []))

pub get_status_word-append :
    (d : List ℕ) (sw1 sw2 : ℕ) → get_status_word (d ++ sw1 ∷ sw2 ∷ []) ≡ sw1 * 256 + sw2
unfolding get_status_word
get_status_word-append d sw1 sw2 =
    rw (two_bytes d sw1 sw2, get_or_second_last d sw1 sw2, get_or_last d sw1 sw2)

pub payload-append : (d : List ℕ) (sw1 sw2 : ℕ) → payload (d ++ sw1 ∷ sw2 ∷ []) ≡ d
unfolding payload
payload-append d sw1 sw2 =
    let e : length (d ++ sw1 ∷ sw2 ∷ []) - 2 ≡ length d =
      omega (arith, length-append d (sw1 ∷ sw2 ∷ [])) in
    rw e (take-append d (sw1 ∷ sw2 ∷ []))

-- A response with the status word 0x9000.
abbrev pub successful : List ℕ → List ℕ
successful d = d ++ 0x90 ∷ 0x00 ∷ []

pub successful-status : (d : List ℕ) → is_success (get_status_word (successful d)) ≡ true
unfolding is_success
successful-status d = rw (get_status_word-append d 0x90 0x00)

-- The guards at the head of a parser let a successful response through to its data.
pub guards_pass {ℓ} :
    {A : Type ℓ} (early : A) (late : List ℕ → A) (d : List ℕ)
    → (if ltb (length (successful d)) 2
        then early
        else if not (is_success (get_status_word (successful d)))
        then early
        else late (payload (successful d)))
      ≡ late d
guards_pass early late d =
    rw (two_bytes d 0x90 0x00, successful-status d) (ap late (payload-append d 0x90 0x00))

-- A response with a status word is not empty.
pub not_empty : (response : List ℕ) → get_status_word response ≡ 0x9000 → is_empty response ≡ false
unfolding get_status_word
not_empty [] h = absurd (ground arith)
not_empty (b ∷ bs) h = refl
