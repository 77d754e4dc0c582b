-- ===== src/Tlv/RoundTrip.antt =====
-- Records that are written are read back.
use yubikey_oath_krunner.Prelude.{
  ℕ, ◌<◌, ◌%◌, ◌≡◌, refl, List, [], ◌∷◌, ◌++◌, some, arith, le→leb, length, length-append,
  take-append, drop-append, All,
}
use yubikey_oath_krunner.Tlv.{next_tlv, find_tlv_tag, tlv}
use yubikey_oath_krunner.Tlv.Walk.{Tlvs, done, more, first_value, find_tlv_tag-Tlvs}

-- A record whose tag and length are bytes.
abbrev pub Fits : ℕ × List ℕ → Type 0
Fits r = (r.0 < 256) × (length r.1 < 256)

abbrev pub encode : List (ℕ × List ℕ) → List ℕ
encode [] = []
encode ((tag, value) ∷ rs) = tlv tag value ++ encode rs

pub next_tlv-raw :
    (tag : ℕ) (value rest : List ℕ)
    → next_tlv (tag ∷ length value ∷ (value ++ rest)) ≡ some (tag, value, rest)
unfolding next_tlv
next_tlv-raw tag value rest =
    rw (le→leb (length value) (length (value ++ rest)) (omega (arith, length-append value rest)))
      (rw (take-append value rest, drop-append value rest))

pub next_tlv-tlv :
    (tag : ℕ) (value rest : List ℕ)
    → tag < 256
    → length value < 256
    → next_tlv (tlv tag value ++ rest) ≡ some (tag, value, rest)
unfolding tlv
next_tlv-tlv tag value rest ht hv =
    let et : tag % 256 ≡ tag = omega arith in
    let el : length value % 256 ≡ length value = omega arith in
    rw (et, el) (next_tlv-raw tag value rest)

pub Tlvs-encode : (rs : List (ℕ × List ℕ)) → All Fits rs → Tlvs (encode rs) rs
unfolding next_tlv
Tlvs-encode [] h = done refl
Tlvs-encode ((tag, value) ∷ rs) h =
    more (next_tlv-tlv tag value (encode rs) h.0.0 h.0.1) (Tlvs-encode rs h.1)

-- What the builders write, `findTlvTag` finds.
pub find_tlv_tag-encode :
    (tag : ℕ) (rs : List (ℕ × List ℕ))
    → All Fits rs
    → find_tlv_tag (encode rs) tag ≡ first_value tag rs
find_tlv_tag-encode tag rs h = find_tlv_tag-Tlvs tag (encode rs) rs (Tlvs-encode rs h)
