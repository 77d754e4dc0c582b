-- ===== src/CredentialId.antt =====
-- src/daemon/oath/oath_protocol.cpp, parseCredentialId: `[period/][issuer:]account`.
-- The pattern ^((\d+)/)?(([^:]+):)?(.+)$ is run as a backtracking matcher does, with PCRE's default
-- options: `\d` is 0 to 9, `.` is all but a line feed, `$` is the end or stands before a last line feed.
pub mod Laws
use yubikey_oath_krunner.Prelude.{
  ℕ, ◌-◌, ◌^◌, Bool, true, false, List, [], ◌∷◌, Option, none, some, leb, ltb, ◌==◌, ◌&&◌, not,
  if◌then◌else◌, is_empty,
}
use yubikey_oath_krunner.Prelude.Digits.{decimal_value}

abbrev pub is_digit : ℕ → Bool
is_digit c = leb b'0' c && leb c b'9'

abbrev pub not_colon : ℕ → Bool
not_colon c = not (c == b':')

abbrev pub not_newline : ℕ → Bool
not_newline c = not (c == 10)

-- The longest prefix of characters that pass the test, and the rest.
unfoldable pub span : (ℕ → Bool) → List ℕ → List ℕ × List ℕ
span p [] = ([], [])
span p (c ∷ cs) = let (front, back) = span p cs in if p c then (c ∷ front, back) else ([], c ∷ cs)

-- `front` must not be empty, and `stop` must come behind it.
stop_after : ℕ → List ℕ → List ℕ → Option (List ℕ × List ℕ)
stop_after stop [] back = none
stop_after stop (c ∷ cs) [] = none
stop_after stop (c ∷ cs) (b ∷ bs) = if b == stop then some (c ∷ cs, bs) else none

-- One or more characters that pass the test, then the given character. The class never contains that
-- character, so a shorter prefix cannot match either.
unfoldable pub run_then : (ℕ → Bool) → ℕ → List ℕ → Option (List ℕ × List ℕ)
unfolding span stop_after
run_then p stop s = stop_after stop (span p s).0 (span p s).1

at_end : List ℕ → List ℕ → Option (List ℕ)
at_end [] back = none
at_end (c ∷ cs) [] = some (c ∷ cs)
at_end (c ∷ cs) (b ∷ []) = some (c ∷ cs)
at_end (c ∷ cs) (b ∷ b' ∷ bs) = none

-- `(.+)$`: a line that is not empty, at the end of the text or before its last line feed.
unfoldable pub account_group : List ℕ → Option (List ℕ)
unfolding span at_end
account_group s = at_end (span not_newline s).0 (span not_newline s).1

-- What the pattern captures: period, issuer and account; a group that took no part is empty.
pub record Match : Type 0 where
  pub period_text : List ℕ
  pub issuer_text : List ℕ
  pub account_text : List ℕ

-- `(([^:]+):)?(.+)$`, the optional group first taken and then left out.
unfoldable pub match_rest : List ℕ → List ℕ → Option Match
unfolding run_then account_group
match_rest digits s =
    let plain : Option Match = elim (account_group s) [
      | none ↦ none
      | some a ↦ some (record { period_text = digits; issuer_text = []; account_text = a })
    ] in
    elim (run_then not_colon b':' s) [
      | none ↦ plain
      | some (issuer, rest) ↦ elim (account_group rest) [
        | none ↦ plain
        | some a ↦ some (record { period_text = digits; issuer_text = issuer; account_text = a })
      ]
    ]

-- The whole pattern: with the period group, and without it where that fails.
unfoldable pub match_id : List ℕ → Option Match
unfolding match_rest run_then
match_id s = elim (run_then is_digit b'/' s) [
  | none ↦ match_rest [] s
  | some (digits, rest) ↦ elim (match_rest digits rest) [ none ↦ match_rest [] s | some m ↦ some m ]
]

-- `periodStr.toInt(&ok)` with `ok && period > 0`, else the default of 30.
unfoldable pub period_of : List ℕ → ℕ
period_of digits =
    let n = decimal_value 0 digits in
    if is_empty digits then 30 else if leb n (2 ^ 31 - 1) && ltb 0 n then n else 30

pub record Parsed : Type 0 where
  pub period : ℕ
  pub issuer : List ℕ
  pub account : List ℕ

unfoldable pub parse_credential_id : List ℕ → Bool → Parsed
parse_credential_id id is_totp =
    let default : ℕ = if is_totp then 30 else 0 in
    let whole : Parsed = record { period = default; issuer = []; account = id } in
    if is_empty id then whole else elim (match_id id) [
      | none ↦ whole
      | some m ↦ record {
        period = if is_totp then period_of m.period_text else default;
        issuer = m.issuer_text;
        account = if is_empty m.account_text then id else m.account_text;
      }
    ]
