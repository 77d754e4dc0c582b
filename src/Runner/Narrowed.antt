-- ===== src/Runner/Narrowed.antt =====
-- Relevance as a query is typed, and the action that is taken.
use yubikey_oath_krunner.Prelude.{
  ℕ, ◌≡◌, ◌≤◌, refl, ◌⊎◌, true, false, List, [], ◌∷◌, ◌++◌, arith, is_empty, list_eq,
}
use yubikey_oath_krunner.Prelude.Text.{codes, starts_with, holds_text}
use yubikey_oath_krunner.Runner.{relevance_of, is_valid_action, determine_action}

starts_with-prefix :
    (text key more : List ℕ) → starts_with text (key ++ more) ≡ true → starts_with text key ≡ true
unfolding starts_with
starts_with-prefix text [] more h = refl
starts_with-prefix [] (k ∷ ks) more h = h
starts_with-prefix (c ∷ cs) (k ∷ ks) more h = ground (arith, h, starts_with-prefix cs ks more)

holds_text-prefix :
    (text key more : List ℕ) → holds_text text (key ++ more) ≡ true → holds_text text key ≡ true
unfolding holds_text
holds_text-prefix [] key more h = starts_with-prefix [] key more h
holds_text-prefix (c ∷ cs) key more h =
    ground (arith, h, starts_with-prefix (c ∷ cs) key more, holds_text-prefix cs key more)

append-not_empty : (key more : List ℕ) → is_empty key ≡ false → is_empty (key ++ more) ≡ false
append-not_empty [] more h = cc
append-not_empty (k ∷ ks) more h = refl

-- A query that is not empty never becomes more relevant to a credential when more is typed.
pub relevance_of-narrowed :
    (name issuer account query more : List ℕ)
    → is_empty query ≡ false
    → relevance_of name issuer account (query ++ more) ≤ relevance_of name issuer account query
unfolding relevance_of
relevance_of-narrowed name issuer account query more h = ground (
  arith,
  h,
  append-not_empty query more h,
  starts_with-prefix name query more,
  starts_with-prefix issuer query more,
  starts_with-prefix account query more,
  holds_text-prefix name query more,
)

copy_known : is_valid_action (codes "copy") ≡ true
unfolding is_valid_action list_eq
copy_known = refl

empty_unknown : (text : List ℕ) → is_empty text ≡ true → is_valid_action text ≡ false
unfolding is_valid_action list_eq
empty_unknown [] h = refl
empty_unknown (c ∷ cs) h = cc

-- Whatever the button and the configuration say, the action that is taken is a known one: that of the
-- button if it is known, and never an unknown one of either.
pub determine_action-valid :
    (selected primary : List ℕ)
    → (is_valid_action (determine_action selected primary) ≡ true)
      × ((is_valid_action selected ≡ false) ⊎ (determine_action selected primary ≡ selected))
unfolding determine_action
determine_action-valid selected primary =
    (ground (arith, copy_known, empty_unknown selected), ground (arith, empty_unknown selected))
