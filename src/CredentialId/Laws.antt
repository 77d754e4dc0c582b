-- ===== src/CredentialId/Laws.antt =====
-- What `parseCredentialId` recovers.
use yubikey_oath_krunner.Prelude.{
  ℕ, ◌^◌, ◌<◌, ◌≡◌, refl, ◌∙◌, ap, ◌≢◌, Bool, true, false, List, [], ◌∷◌, ◌++◌, none, some, arith,
  All, Option-cases,
}
use yubikey_oath_krunner.Prelude.Digits.{IsDigit, IsDecimal, decimal_value}
use yubikey_oath_krunner.CredentialId.{
  is_digit, not_colon, not_newline, span, stop_after, run_then, at_end, account_group, Match,
  match_rest, match_id, period_of, parse_credential_id,
}

period_of_pos : (digits : List ℕ) → 0 < period_of digits
unfolding period_of
period_of_pos digits = ground arith

-- A credential for codes by time always has a period above zero, so that the remainder by it is
-- defined; one for codes by counter has period 0.
pub period_positive :
    (id : List ℕ)
    → (0 < (parse_credential_id id true).period) × ((parse_credential_id id false).period ≡ 0)
unfolding parse_credential_id
period_positive id = (grind (arith, Option-cases (match_id id), period_of_pos), ground arith)

abbrev pub Passes : (ℕ → Bool) → List ℕ → Type 0
Passes p = All λ c. p c ≡ true

span-append :
    (p : ℕ → Bool) (front : List ℕ) (b : ℕ) (back : List ℕ)
    → Passes p front
    → p b ≡ false
    → span p (front ++ b ∷ back) ≡ (front, b ∷ back)
unfolding span
span-append p [] b back h stops = rw stops
span-append p (c ∷ front) b back h stops = rw (span-append p front b back h.1 stops, h.0)

span_all : (p : ℕ → Bool) (front : List ℕ) → Passes p front → span p front ≡ (front, [])
unfolding span
span_all p [] h = refl
span_all p (c ∷ front) h = rw (span_all p front h.1, h.0)

run_then-append :
    (p : ℕ → Bool) (stop : ℕ) (front back : List ℕ)
    → Passes p front
    → front ≢ []
    → p stop ≡ false
    → run_then p stop (front ++ stop ∷ back) ≡ some (front, back)
unfolding run_then stop_after
run_then-append p stop [] back h ne stops = absurd (ne refl)
run_then-append p stop (c ∷ cs) back h ne stops =
    rw (span-append p (c ∷ cs) stop back h stops) (ground arith)

account_group_line :
    (line : List ℕ) → Passes not_newline line → line ≢ [] → account_group line ≡ some line
unfolding account_group at_end
account_group_line [] h ne = absurd (ne refl)
account_group_line (c ∷ cs) h ne = rw (span_all not_newline (c ∷ cs) h)

-- The text of a credential with a period in front of its issuer and account.
abbrev pub credential_id : List ℕ → List ℕ → List ℕ → List ℕ
credential_id digits issuer account = digits ++ b'/' ∷ (issuer ++ b':' ∷ account)

match_rest-issuer :
    (digits issuer account : List ℕ)
    → Passes not_colon issuer
    → issuer ≢ []
    → Passes not_newline account
    → account ≢ []
    → match_rest digits (issuer ++ b':' ∷ account)
      ≡ some (record { period_text = digits; issuer_text = issuer; account_text = account })
unfolding match_rest
match_rest-issuer digits issuer account hi ni ha na =
    rw (run_then-append not_colon b':' issuer account hi ni refl, match_rest)
      (rw (account_group_line account ha na))

digits-Passes : (ds : List ℕ) → All IsDigit ds → Passes is_digit ds
digits-Passes [] h = tt
digits-Passes (d ∷ ds) h = (ground arith, digits-Passes ds h.1)

parse-matched :
    (id : List ℕ) (m : Match)
    → id ≢ []
    → match_id id ≡ some m
    → m.account_text ≢ []
    → parse_credential_id id true ≡ record {
      period = period_of m.period_text;
      issuer = m.issuer_text;
      account = m.account_text;
    }
unfolding parse_credential_id
parse-matched [] m ne e na = absurd (ne refl)
parse-matched (c ∷ cs) m ne e na = rw (e, parse_credential_id) (ground arith)

period_of-digits :
    (digits : List ℕ) (p : ℕ)
    → decimal_value 0 digits ≡ p
    → 0 < p
    → p < 2 ^ 31
    → period_of digits ≡ p
unfolding period_of
period_of-digits [] p e pos hi = ground arith
period_of-digits (d ∷ ds) p e pos hi = ground arith

append-ne-nil : (xs : List ℕ) (y : ℕ) (ys : List ℕ) → xs ++ y ∷ ys ≢ []
append-ne-nil [] y ys = λ e. cc
append-ne-nil (x ∷ xs) y ys = λ e. cc

run_then-first :
    (p : ℕ → Bool) (stop c : ℕ) (cs : List ℕ) → p c ≡ false → run_then p stop (c ∷ cs) ≡ none
unfolding run_then
run_then-first p stop c cs h = rw h

match_id-none : (id : List ℕ) → run_then is_digit b'/' id ≡ none → match_id id ≡ match_rest [] id
unfolding match_id
match_id-none id e = rw (e, match_id)

module _ (issuer account : List ℕ) (hi : Passes not_colon issuer) (ni : issuer ≢ [])
    (ha : Passes not_newline account) (na : account ≢ []) where
  match_id-period :
      (digits : List ℕ)
      → All IsDigit digits
      → digits ≢ []
      → match_id (credential_id digits issuer account)
        ≡ some (record { period_text = digits; issuer_text = issuer; account_text = account })
  unfolding match_id
  match_id-period digits hd nd =
      rw
        (
          run_then-append is_digit b'/' digits (issuer ++ b':' ∷ account) (digits-Passes digits hd)
              nd refl,
          match_id,
        )
        (rw (match_rest-issuer digits issuer account hi ni ha na))

  match_id-plain :
      (c : ℕ) (cs : List ℕ)
      → issuer ≡ c ∷ cs
      → is_digit c ≡ false
      → match_id (issuer ++ b':' ∷ account)
        ≡ some (record { period_text = []; issuer_text = issuer; account_text = account })
  match_id-plain c cs e nd =
      match_id-none _ (rw e (run_then-first is_digit b'/' c (cs ++ b':' ∷ account) nd))
      ∙ match_rest-issuer [] issuer account hi ni ha na

  -- `period/issuer:account` gives back its three parts, for a period above zero that fits a C++
  -- `int`, an issuer with no colon and an account with no line feed, neither of them empty.
  pub parse-credential_id :
      (number : ℕ → List ℕ) (period : ℕ)
      → IsDecimal number
      → 0 < period
      → period < 2 ^ 31
      → parse_credential_id (credential_id (number period) issuer account) true
        ≡ record { period = period; issuer = issuer; account = account }
  parse-credential_id number period dec pos small =
      parse-matched _ _ (append-ne-nil (number period) _ _)
        (match_id-period (number period) (dec.digits period word) filled) na
      ∙ rw (period_of-digits (number period) period (dec.value period word) pos small)
    where
      word : period < 2 ^ 32
      word = omega arith

      filled : number period ≢ []
      filled e = omega (arith, dec.value period word, ap (decimal_value 0) e)

  -- `issuer:account` gives back its parts and the default period, where the issuer does not begin
  -- with a digit and has no colon, and the account is not empty and has no line feed.
  pub parse-issuer_account :
      (c : ℕ) (cs : List ℕ)
      → issuer ≡ c ∷ cs
      → is_digit c ≡ false
      → parse_credential_id (issuer ++ b':' ∷ account) true
        ≡ record { period = 30; issuer = issuer; account = account }
  parse-issuer_account c cs e nd =
      parse-matched _ _ (append-ne-nil issuer _ _) (match_id-plain c cs e nd) na
      ∙ (unfold period_of in refl)
