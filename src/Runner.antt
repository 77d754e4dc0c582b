-- ===== src/Runner.antt =====
-- The decisions of the KRunner plugin: src/krunner/matching/match_builder.cpp (calculateRelevance) and
-- src/krunner/actions/action_manager.cpp. Relevance is kept in tenths.
pub mod Narrowed
use yubikey_oath_krunner.Prelude.{
  ℕ, Bool, true, false, List, [], ◌∷◌, ◌||◌, not, is_empty, list_eq, if◌then◌else◌,
}
use yubikey_oath_krunner.Prelude.Text.{codes, starts_with, holds_text}

-- Of texts in lower case.
unfoldable pub relevance_of : List ℕ → List ℕ → List ℕ → List ℕ → ℕ
relevance_of name issuer account query =
    if is_empty query
    then 5
    else if starts_with name query
    then 10
    else if starts_with issuer query
    then 9
    else if starts_with account query
    then 8
    else if holds_text name query
    then 7
    else 5

-- `to_lower` is QString::toLower.
unfoldable pub calculate_relevance : (List ℕ → List ℕ) → List ℕ → List ℕ → List ℕ → List ℕ → ℕ
unfolding relevance_of
calculate_relevance to_lower name issuer account query =
    relevance_of (to_lower name) (to_lower issuer) (to_lower account) (to_lower query)

unfoldable pub is_valid_action : List ℕ → Bool
unfolding list_eq
is_valid_action action =
    list_eq action (codes "copy")
    || (list_eq action (codes "type") || list_eq action (codes "delete"))

-- The action of the button that was pressed, if any, else the configured one, else copying.
unfoldable pub determine_action : List ℕ → List ℕ → List ℕ
unfolding is_valid_action
determine_action selected primary =
    let fallback = if is_valid_action primary then primary else codes "copy" in
    if not (is_empty selected)
    then (if is_valid_action selected then selected else fallback)
    else fallback
