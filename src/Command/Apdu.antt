-- ===== src/Command/Apdu.antt =====
-- The card's side of a command: how ISO 7816-4 splits a short APDU into header, data and Le.
use yubikey_oath_krunner.Prelude.{
  ℕ, ◌+◌, ◌≡◌, refl, List, [], ◌∷◌, ◌++◌, Option, none, some, arith, ◌==◌, if◌then◌else◌, length,
  length-append, take, take-append, get_or,
}

pub record Apdu : Type 0 where
  pub cla : ℕ
  pub ins : ℕ
  pub p1 : ℕ
  pub p2 : ℕ
  pub content : List ℕ
  pub le : Option ℕ

-- The four cases: no body, Le alone, Lc and data, Lc and data and Le.
parse_body : List ℕ → Option (List ℕ × Option ℕ)
parse_body [] = some ([], none)
parse_body (le ∷ []) = some ([], some le)
parse_body (lc ∷ x ∷ rest) =
    let n = length (x ∷ rest) in
    if n == lc
    then some (x ∷ rest, none)
    else if n == lc + 1
    then some (take lc (x ∷ rest), some (get_or (x ∷ rest) lc 0))
    else none

pub parse_apdu : List ℕ → Option Apdu
unfolding parse_body
parse_apdu (cla ∷ ins ∷ p1 ∷ p2 ∷ body) = elim (parse_body body) [
  | none ↦ none
  | some (content, le) ↦
      some (record { cla = cla; ins = ins; p1 = p1; p2 = p2; content = content; le = le })
]
parse_apdu _ = none

get_or-last : (d : List ℕ) (le : ℕ) → get_or (d ++ le ∷ []) (length d) 0 ≡ le
get_or-last [] le = refl
get_or-last (y ∷ d) le = get_or-last d le

module _ (cla ins p1 p2 : ℕ) where
  pub parse_apdu-data :
      (lc x : ℕ) (xs : List ℕ)
      → lc ≡ length (x ∷ xs)
      → parse_apdu (cla ∷ ins ∷ p1 ∷ p2 ∷ lc ∷ x ∷ xs)
        ≡ some (record { cla = cla; ins = ins; p1 = p1; p2 = p2; content = x ∷ xs; le = none })
  unfolding parse_apdu
  parse_apdu-data lc x xs e = ground arith

  pub parse_apdu-data_le :
      (lc x : ℕ) (xs : List ℕ) (le : ℕ)
      → lc ≡ length (x ∷ xs)
      → parse_apdu (cla ∷ ins ∷ p1 ∷ p2 ∷ lc ∷ x ∷ (xs ++ le ∷ []))
        ≡ some (record { cla = cla; ins = ins; p1 = p1; p2 = p2; content = x ∷ xs; le = some le })
  unfolding parse_apdu
  parse_apdu-data_le lc x xs le e =
      rw e (ground (arith, length-append xs (le ∷ []), take-append xs (le ∷ []), get_or-last xs le))
