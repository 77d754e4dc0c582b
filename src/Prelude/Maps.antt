-- ===== src/Prelude/Maps.antt =====
-- QMap and std::unordered_map with texts for keys, as association lists. An insertion replaces the
-- value of a key that is there.
use Prim.Native.Nat.{ℕ}
use mathlib.Core.Path.{◌≡◌, refl, ◌∙◌}
use mathlib.Core.Logic.{◌↔◌, ◌⊎◌}
use mathlib.Core.Bool.{true, false}
use mathlib.Core.Option.{Option, none, some}
use mathlib.Core.List.{List, [], ◌∷◌}
use native.Mathlib.Omega.{arith}
use yubikey_oath_krunner.Prelude.Tests.{if◌then◌else◌, list_eq, list_eq→eq, list_eq_refl}

pub list_eq_iff : (xs ys : List ℕ) → (list_eq xs ys ≡ true) ↔ (xs ≡ ys)
list_eq_iff xs ys = (list_eq→eq xs ys, λ e. rw e (list_eq_refl ys))

module _ {ℓ} {V : Type ℓ} where
  unfoldable pub lookup : List ℕ → List (List ℕ × V) → Option V
  lookup k [] = none
  lookup k ((j, v) ∷ m) = if list_eq j k then some v else lookup k m

  unfoldable pub insert : List ℕ → V → List (List ℕ × V) → List (List ℕ × V)
  insert k v [] = (k, v) ∷ []
  insert k v ((j, w) ∷ m) = if list_eq j k then (k, v) ∷ m else (j, w) ∷ insert k v m

  unfoldable pub erase : List ℕ → List (List ℕ × V) → List (List ℕ × V)
  erase k [] = []
  erase k ((j, w) ∷ m) = if list_eq j k then erase k m else (j, w) ∷ erase k m

  pub lookup-insert :
      (k j : List ℕ) (v : V) (m : List (List ℕ × V))
      → lookup j (insert k v m) ≡ (if list_eq k j then some v else lookup j m)
  unfolding lookup insert
  lookup-insert k j v [] = refl
  lookup-insert k j v ((i, w) ∷ m) =
      ground (arith, list_eq_iff k j, list_eq_iff i k, list_eq_iff i j, lookup-insert k j v m)

  pub lookup-erase :
      (k j : List ℕ) (m : List (List ℕ × V))
      → lookup j (erase k m) ≡ (if list_eq k j then none else lookup j m)
  unfolding lookup erase
  lookup-erase k j [] = ground arith
  lookup-erase k j ((i, w) ∷ m) =
      ground (arith, list_eq_iff k j, list_eq_iff i k, list_eq_iff i j, lookup-erase k j m)

  pub lookup-erase_other :
      (k j : List ℕ) (m : List (List ℕ × V))
      → list_eq k j ≡ false
      → lookup j (erase k m) ≡ lookup j m
  lookup-erase_other k j m h = lookup-erase k j m ∙ rw h refl

  pub lookup-erase_self : (k : List ℕ) (m : List (List ℕ × V)) → lookup k (erase k m) ≡ none
  lookup-erase_self k m = lookup-erase k k m ∙ rw (list_eq_refl k) refl

  pub lookup-erase-some :
      (k j : List ℕ) (v : V) (m : List (List ℕ × V))
      → lookup j (erase k m) ≡ some v
      → (list_eq k j ≡ false) × (lookup j m ≡ some v)
  lookup-erase-some k j v m h = ground (arith, h, lookup-erase k j m)

  pub lookup-insert_self :
      (k : List ℕ) (v : V) (m : List (List ℕ × V)) → lookup k (insert k v m) ≡ some v
  lookup-insert_self k v m = lookup-insert k k v m ∙ rw (list_eq_refl k) refl

  pub lookup-insert_other :
      (k j : List ℕ) (v : V) (m : List (List ℕ × V))
      → list_eq k j ≡ false
      → lookup j (insert k v m) ≡ lookup j m
  lookup-insert_other k j v m h = lookup-insert k j v m ∙ rw h refl

  pub lookup-insert-some :
      (k j : List ℕ) (v w : V) (m : List (List ℕ × V))
      → lookup j (insert k v m) ≡ some w
      → ((k ≡ j) × (v ≡ w)) ⊎ ((list_eq k j ≡ false) × (lookup j m ≡ some w))
  lookup-insert-some k j v w m h = ground (arith, h, lookup-insert k j v m, list_eq_iff k j)
