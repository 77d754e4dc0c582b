-- ===== src/Management/Device.antt =====
-- The device information against the records of the card's answer.
use yubikey_oath_krunner.Prelude.{
  ℕ, zero, suc, ◌+◌, ◌-◌, ◌≤◌, ◌≡◌, ◌≢◌, refl, ◌∙◌, ap, true, false, List, [], ◌∷◌, ◌++◌, Option,
  none, some, arith, ltb, ◌==◌, if◌then◌else◌, is_empty, length, length-append, take-append, All,
}
use mathlib.Core.Path.{fun_ext}
use yubikey_oath_krunner.Tlv.{next_tlv, tlv}
use yubikey_oath_krunner.Tlv.RoundTrip.{Fits, encode, next_tlv-tlv}
use yubikey_oath_krunner.Status.Laws.{successful, successful-status}
use yubikey_oath_krunner.Management.{
  ManagementDeviceInfo, TlvMap, value_of, at_status_word, parse_tlv_loop, parse_tlv, fill, between,
  parse_device_info_response,
}

-- The value of the last record with a tag.
abbrev pub last_of : ℕ → Option (List ℕ) → List (ℕ × List ℕ) → Option (List ℕ)
last_of tag seen [] = seen
last_of tag seen ((t, v) ∷ rs) = last_of tag (if t == tag then some v else seen) rs

-- A record that is not mistaken for the status word 0x9000.
abbrev pub IsData : ℕ × List ℕ → Type 0
IsData (tag, value) = at_status_word (tlv tag value) ≡ false

next_tlv-nil : next_tlv [] ≡ none
unfolding next_tlv
next_tlv-nil = refl

length-tlv : (tag : ℕ) (value : List ℕ) → length (tlv tag value) ≡ 2 + length value
unfolding tlv
length-tlv tag value = omega arith

at_status_word-tlv :
    (tag : ℕ) (value rest : List ℕ)
    → at_status_word (tlv tag value ++ rest) ≡ at_status_word (tlv tag value)
unfolding tlv
at_status_word-tlv tag value rest = refl

-- What the loop leaves in the map: the value of the last record, for each tag, and as many records.
loop-encode :
    (fuel tag : ℕ) (rs : List (ℕ × List ℕ)) (map : TlvMap)
    → All Fits rs
    → All IsData rs
    → length (encode rs) ≤ fuel
    → (value_of tag (parse_tlv_loop fuel (encode rs) map) ≡ last_of tag (value_of tag map) rs)
      × (length (parse_tlv_loop fuel (encode rs) map) ≡ length rs + length map)
unfolding parse_tlv_loop value_of
loop-encode zero tag [] map fits is_data h = (refl, omega arith)
loop-encode (suc fuel) tag [] map fits is_data h =
    (rw next_tlv-nil refl, rw next_tlv-nil (omega arith))
loop-encode zero tag ((t, v) ∷ rs) map fits is_data h =
    absurd (omega (arith, length-append (tlv t v) (encode rs), length-tlv t v))
loop-encode (suc fuel) tag ((t, v) ∷ rs) map fits is_data h =
    let (value, count) =
      loop-encode fuel tag rs ((t, v) ∷ map) fits.1 is_data.1
        (omega (arith, length-append (tlv t v) (encode rs), length-tlv t v)) in
    let step = next_tlv-tlv t v (encode rs) fits.0.0 fits.0.1 in
    let test = at_status_word-tlv t v (encode rs) ∙ is_data.0 in
    (rw (step, test) value, rw (step, test) (omega (arith, count)))

between-successful : (header : ℕ) (d : List ℕ) → between (header ∷ successful d) ≡ d
between-successful header d =
    let n = length-append d (0x90 ∷ 0x00 ∷ []) in
    let long : (length (header ∷ successful d) == 2) ≡ false = ground (arith, n) in
    let short : length (header ∷ successful d) - 3 ≡ length d = omega (arith, n) in
    rw (long, short) (take-append d (0x90 ∷ 0x00 ∷ []))

not_empty_map : (map : TlvMap) → 1 ≤ length map → is_empty map ≡ false
not_empty_map [] h = absurd (omega arith)
not_empty_map (r ∷ rs) h = refl

-- A successful answer of whole records, at least one and none of them mistaken for a status word, is
-- accepted whatever its first byte; each field is set by the last record with its tag, if the length
-- of that record's value is right, and keeps its value otherwise.
pub parse_device_info-last :
    (header : ℕ) (rs : List (ℕ × List ℕ)) (info : ManagementDeviceInfo)
    → rs ≢ []
    → All Fits rs
    → All IsData rs
    → parse_device_info_response (header ∷ successful (encode rs)) info
      ≡ (fill (λ tag. last_of tag none rs) info, true)
unfolding parse_device_info_response parse_tlv value_of
parse_device_info-last header [] info some_record fits is_data = absurd (some_record refl)
parse_device_info-last header (r ∷ rs) info some_record fits is_data =
    let d : List ℕ = encode (r ∷ rs) in
    let n = length-append d (0x90 ∷ 0x00 ∷ []) in
    let long : ltb (length (header ∷ successful d)) 2 ≡ false = ground (arith, n) in
    let ok = successful-status (header ∷ d) in
    let same : (tag : ℕ) → value_of tag (parse_tlv d) ≡ last_of tag none (r ∷ rs) =
      λ tag. (loop-encode (length d) tag (r ∷ rs) [] fits is_data (omega arith)).0 in
    let count = (loop-encode (length d) 0 (r ∷ rs) [] fits is_data (omega arith)).1 in
    rw (long, ok, between-successful header d)
      (rw (not_empty_map (parse_tlv d) (omega (arith, count)))
        (ap (λ value. (fill value info, true)) (fun_ext same)))
