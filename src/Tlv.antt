-- ===== src/Tlv.antt =====
-- src/daemon/oath/oath_protocol.cpp: records of a tag byte, a length byte and a value, and the search
-- for one of them. A list is what a loop over `data` has not reached at its index.
pub mod Walk
pub mod RoundTrip
use yubikey_oath_krunner.Prelude.{
  ℕ, zero, suc, ◌+◌, List, [], ◌∷◌, ◌++◌, Option, none, some, leb, ◌==◌, if◌then◌else◌, length,
  take, drop,
}
use yubikey_oath_krunner.Prelude.Bytes.{byte}

-- The guards at the head of every loop over records: `none` where the loop ends, because fewer than
-- two bytes are left or the value does not fit; else the tag, the value and what comes behind it.
unfoldable pub next_tlv : List ℕ → Option (ℕ × List ℕ × List ℕ)
next_tlv [] = none
next_tlv (tag ∷ []) = none
next_tlv (tag ∷ len ∷ rest) =
    if leb len (length rest) then some (tag, take len rest, drop len rest) else none

-- Each round takes two bytes at least, so the length of the data is fuel enough.
find_tlv_tag_loop : ℕ → List ℕ → ℕ → List ℕ
find_tlv_tag_loop zero data' tag = []
find_tlv_tag_loop (suc fuel) data' tag = elim (next_tlv data') [
  | none ↦ []
  | some (current_tag, value, rest) ↦
      let later = find_tlv_tag_loop fuel rest tag in if current_tag == tag then value else later
]

unfoldable pub find_tlv_tag : List ℕ → ℕ → List ℕ
unfolding find_tlv_tag_loop
find_tlv_tag data' tag = find_tlv_tag_loop (length data') data' tag

-- A loop over all records, whose body updates the variables `s`.
unfoldable pub for_each_tlv {ℓ} : {S : Type ℓ} → ℕ → (ℕ → List ℕ → S → S) → List ℕ → S → S
for_each_tlv zero body data' s = s
for_each_tlv (suc fuel) body data' s = elim (next_tlv data') [
  | none ↦ s
  | some (tag, value, rest) ↦ for_each_tlv fuel body rest (body tag value s)
]

-- How the command builders write a record: tag byte, length byte, value.
unfoldable pub tlv : ℕ → List ℕ → List ℕ
tlv tag value = byte tag ∷ byte (length value) ∷ value
