-- ===== src/Tlv/Walk.antt =====
-- The loops of `Tlv` against the list of records that a byte array holds.
use yubikey_oath_krunner.Prelude.{
  ℕ, zero, suc, ◌+◌, ◌≤◌, ◌<◌, ◌≡◌, refl, inl, inr, List, [], ◌∷◌, none, some, arith, ◌==◌,
  if◌then◌else◌, length, length-drop, Option-cases,
}
use yubikey_oath_krunner.Tlv.{next_tlv, find_tlv_tag_loop, find_tlv_tag, for_each_tlv}

-- The records of a byte array, up to the first that is cut short.
pub data Tlvs : List ℕ → List (ℕ × List ℕ) → Type 0 where
  done : {d : List ℕ} → next_tlv d ≡ none → Tlvs d []
  more :
      {d value rest : List ℕ} {tag : ℕ} {rs : List (ℕ × List ℕ)}
      → next_tlv d ≡ some (tag, value, rest)
      → Tlvs rest rs
      → Tlvs d ((tag, value) ∷ rs)

-- The value of the first record with a tag, and nothing where there is none.
abbrev pub first_value : ℕ → List (ℕ × List ℕ) → List ℕ
first_value tag [] = []
first_value tag ((t, value) ∷ rs) = if t == tag then value else first_value tag rs

pub next_tlv-shrinks :
    (d : List ℕ) {tag : ℕ} {value rest : List ℕ}
    → next_tlv d ≡ some (tag, value, rest)
    → length rest + 2 ≤ length d
unfolding next_tlv
next_tlv-shrinks [] e = cc
next_tlv-shrinks (t ∷ []) e = cc
next_tlv-shrinks (t ∷ len ∷ r) e = ground (arith, length-drop len r)

Tlvs-below : (k : ℕ) (d : List ℕ) → length d < k → (rs : List (ℕ × List ℕ)) × Tlvs d rs
Tlvs-below zero d h = elim h [ ]
Tlvs-below (suc k) d h = elim (Option-cases (next_tlv d)) [
  | inl e ↦ ([], done e)
  | inr ((tag, value, rest), e) ↦
      let (rs, w) = Tlvs-below k rest (omega (arith, next_tlv-shrinks d e)) in
      ((tag, value) ∷ rs, more e w)
]

-- Every byte array has its records.
pub Tlvs-total : (d : List ℕ) → (rs : List (ℕ × List ℕ)) × Tlvs d rs
Tlvs-total d = Tlvs-below (suc (length d)) d (omega arith)

find_tlv_tag_loop-Tlvs :
    (fuel tag : ℕ) {d : List ℕ} {rs : List (ℕ × List ℕ)}
    → Tlvs d rs
    → length d ≤ fuel
    → find_tlv_tag_loop fuel d tag ≡ first_value tag rs
unfolding find_tlv_tag_loop
find_tlv_tag_loop-Tlvs zero tag (done e) h = refl
find_tlv_tag_loop-Tlvs zero tag (more {d = d} e w) h = absurd (omega (arith, next_tlv-shrinks d e))
find_tlv_tag_loop-Tlvs (suc fuel) tag (done e) h = rw (e, find_tlv_tag_loop)
find_tlv_tag_loop-Tlvs (suc fuel) tag (more {d = d} {rest = rest} {tag = t} {rs = rs} e w) h =
    rw (e, find_tlv_tag_loop)
      (ground (arith, find_tlv_tag_loop-Tlvs fuel tag w (omega (arith, next_tlv-shrinks d e))))

-- `findTlvTag` returns the value of the first record with the tag.
pub find_tlv_tag-Tlvs :
    (tag : ℕ) (d : List ℕ) (rs : List (ℕ × List ℕ))
    → Tlvs d rs
    → find_tlv_tag d tag ≡ first_value tag rs
unfolding find_tlv_tag
find_tlv_tag-Tlvs tag d rs w = find_tlv_tag_loop-Tlvs (length d) tag w (omega arith)

module _ {ℓ} {S : Type ℓ} (body : ℕ → List ℕ → S → S) where
  -- The fold that a loop over the records amounts to.
  abbrev pub each : S → List (ℕ × List ℕ) → S
  each s [] = s
  each s ((tag, value) ∷ rs) = each (body tag value s) rs

  -- A loop with enough fuel meets each record once, in order.
  pub for_each_tlv-Tlvs :
      (fuel : ℕ) (s : S) {d : List ℕ} {rs : List (ℕ × List ℕ)}
      → Tlvs d rs
      → length d ≤ fuel
      → for_each_tlv fuel body d s ≡ each s rs
  unfolding for_each_tlv
  for_each_tlv-Tlvs zero s (done e) h = refl
  for_each_tlv-Tlvs zero s (more {d = d} e w) h = absurd (omega (arith, next_tlv-shrinks d e))
  for_each_tlv-Tlvs (suc fuel) s (done e) h = rw (e, for_each_tlv)
  for_each_tlv-Tlvs (suc fuel) s (more {d = d} {value = value} {tag = t} e w) h =
      rw (e, for_each_tlv)
        (for_each_tlv-Tlvs fuel (body t value s) w (omega (arith, next_tlv-shrinks d e)))
