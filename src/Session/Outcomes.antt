-- ===== src/Session/Outcomes.antt =====
-- What the operations on credentials answer, against the card's status word.
use yubikey_oath_krunner.Prelude.{
  length, ℕ, ◌%◌, ◌^◌, ◌≤◌, ◌≡◌, ◌≢◌, ◌⊎◌, refl, ◌∙◌, ap, inl, inr, List, [], ◌∷◌, some, ◌/◌, arith,
  is_empty, if◌then◌else◌,
}
use yubikey_oath_krunner.Prelude.Bytes.{IsByte, be32}
use yubikey_oath_krunner.Prelude.Digits.{IsDecimal}
use yubikey_oath_krunner.Prelude.Text.{Qt}
use yubikey_oath_krunner.Status.{get_status_word}
use yubikey_oath_krunner.Credential.{Invalid, OathCredentialData, Verdict, valid, invalid, validate}
use yubikey_oath_krunner.Command.{
  create_put_command, create_delete_command, create_calculate_command,
}
use yubikey_oath_krunner.Code.{nitrokey_parse_code, Formatted, text, division_by_zero}
use yubikey_oath_krunner.Code.Format.{Shows}
use yubikey_oath_krunner.Code.Parse.{code_response, parse_code-Shows}
use yubikey_oath_krunner.Status.Laws.{get_status_word-append, not_empty}
use yubikey_oath_krunner.Tlv.RoundTrip.{encode}
use yubikey_oath_krunner.Session.{
  password_or_touch_required, Env, State, pure, ◌>>=◌, no_response, Result, success, error,
}
use yubikey_oath_krunner.Session.Bind.{bind-inv, bind-some}
use yubikey_oath_krunner.Session.Transport.{send_apdu}
use yubikey_oath_krunner.Session.Operations.{
  counter_bytes, totp_counter, totp_challenge, parsed_code, read_clock, put_result, delete_result,
  put_credential, delete_credential, calculate_code,
}
use yubikey_oath_krunner.Session.Nitrokey

answered :
    {W : Type 0} (table : ℕ → Result (Unit {0})) (response : List ℕ) (u t : State W)
    → (if is_empty response
          then pure (error no_response)
          else pure (table (get_status_word response)))
        u
      ≡ some (success tt, t)
    → (u ≡ t) × (table (get_status_word response) ≡ success tt)
answered table [] u t h = absurd cc
answered table (b ∷ bs) u t h = (cc, cc)

-- A command whose status word a table takes for success.
pub sent :
    (env : Env) (fuel : ℕ) (command : List ℕ) (table : ℕ → Result (Unit {0})) (s t : State env.W)
    → (send_apdu env fuel command >>= λ response.
          if is_empty response
          then pure (error no_response)
          else pure (table (get_status_word response)))
        s
      ≡ some (success tt, t)
    → (response : List ℕ) × (send_apdu env fuel command s ≡ some (response, t))
      × (table (get_status_word response) ≡ success tt)
sent env fuel command table s t h =
    let (response, u, e, r) = bind-inv (send_apdu env fuel command) _ s t (success tt) h in
    let (same, ok) = answered table response u t r in
    (response, e ∙ ap (λ v. some (response, v)) same, ok)

put_result-success : (sw : ℕ) → put_result sw ≡ success tt → sw ≡ 0x9000
unfolding put_result
put_result-success sw h = ground arith

delete_result-success : (sw : ℕ) → delete_result sw ≡ success tt → sw ≡ 0x9000
unfolding delete_result
delete_result-success sw h = ground arith

Verdict-cases : (v : Verdict) → (v ≡ valid) ⊎ ((why : Invalid) × (v ≡ invalid why))
Verdict-cases valid = inl refl
Verdict-cases (invalid why) = inr (why, refl)

-- An addition that is reported as done was of valid data and was sent, and the card answered it with
-- 0x9000.
pub put_credential-success :
    (env : Env) (qt : Qt) (fuel : ℕ) (d : OathCredentialData) (s t : State env.W)
    → put_credential env qt fuel d s ≡ some (success tt, t)
    → (validate qt d ≡ valid)
      × (response : List ℕ) × (send_apdu env fuel (create_put_command qt d) s ≡ some (response, t))
      × (get_status_word response ≡ 0x9000)
unfolding put_credential
put_credential-success env qt fuel d s t h = elim (Verdict-cases (validate qt d)) [
  | inl v ↦
      let (response, e, ok) =
        sent env fuel (create_put_command qt d) put_result s t (ground (arith, v, h)) in
      (v, response, e, put_result-success (get_status_word response) ok)
  | inr (why, v) ↦ absurd (ground (arith, v, h))
]

-- A deletion that is reported as done had a name that is not empty and was sent, and the card
-- answered it with 0x9000.
pub delete_credential-success :
    (env : Env) (qt : Qt) (fuel : ℕ) (name : List ℕ) (s t : State env.W)
    → delete_credential env qt fuel name s ≡ some (success tt, t)
    → (name ≢ [])
      × (response : List ℕ) × (send_apdu env fuel (create_delete_command qt name) s
          ≡ some (response, t))
      × (get_status_word response ≡ 0x9000)
unfolding delete_credential
delete_credential-success env qt fuel [] s t h = absurd (ground (arith, h))
delete_credential-success env qt fuel (c ∷ name) s t h =
    let command = create_delete_command qt (c ∷ name) in
    let (response, e, ok) = sent env fuel command delete_result s t (ground (arith, h)) in
    (λ no_name. cc, response, e, delete_result-success (get_status_word response) ok)

parsed_code_error : (c : Formatted) → parsed_code c ≢ error password_or_touch_required
parsed_code_error division_by_zero = λ e. cc
parsed_code_error (text []) = λ e. cc
parsed_code_error (text (c ∷ cs)) = λ e. cc

-- Whatever the card does, a Nitrokey's code is never refused with the error for a password: the
-- status word that asks for one is always taken as a wait for touch.
pub calculate_code-never_password :
    (env : Env) (qt : Qt) (fuel : ℕ) (name : List ℕ) (period : ℕ) (s t : State env.W)
    (r : Result (List ℕ))
    → Nitrokey.calculate_code env qt fuel name period s ≡ some (r, t)
    → r ≢ error password_or_touch_required
unfolding Nitrokey.calculate_code
calculate_code-never_password env qt fuel name period s t r h =
    let (now, u, e, h1) = bind-inv (read_clock env qt fuel) _ s t r h in
    let (challenge, u', _, h2) = bind-inv (totp_challenge env qt fuel now period) _ u t r h1 in
    let (response, v, e', h3) = bind-inv (send_apdu env fuel _) _ u' t r h2 in
    λ bad. ground (arith, h3, bad, parsed_code_error (nitrokey_parse_code qt response))

status_of_code :
    (digits b0 b1 b2 b3 : ℕ) → get_status_word (code_response digits b0 b1 b2 b3) ≡ 0x9000
status_of_code digits b0 b1 b2 b3 =
    get_status_word-append (encode ((0x76, digits ∷ b0 ∷ b1 ∷ b2 ∷ b3 ∷ []) ∷ [])) 0x90 0x00

shown : (code : List ℕ) → 1 ≤ length code → parsed_code (text code) ≡ success code
shown [] h = absurd (omega arith)
shown (c ∷ cs) h = refl

totp_challenge-positive :
    (env : Env) (qt : Qt) (fuel now period : ℕ) (s : State env.W)
    → 1 ≤ period
    → totp_challenge env qt fuel now period s ≡ some (counter_bytes (now / period), s)
unfolding totp_challenge totp_counter
totp_challenge-positive env qt fuel now period s h = ground (arith, h)

-- If the period is above 0 and the card answers CALCULATE, sent with the number of the period that the
-- clock shows in eight bytes, with a truncated code of 1 to 9 digits, then the operation returns those digits: as many of them as the
-- card said, standing for the four bytes modulo the power of ten. The state is the one that the
-- exchange left, so no signal is sent for it.
pub calculate_code-Shows :
    (env : Env) (qt : Qt) (fuel : ℕ) (name : List ℕ) (period digits b0 b1 b2 b3 : ℕ)
    (s t : State env.W)
    → IsDecimal qt.number
    → IsByte b0
    → IsByte b1
    → IsByte b2
    → IsByte b3
    → 1 ≤ digits
    → digits ≤ 9
    → 1 ≤ period
    → send_apdu env fuel
        (create_calculate_command qt name (counter_bytes ((env.now_secs s.world).0 / period)))
        (record s { world = (env.now_secs s.world).1 })
      ≡ some (code_response digits b0 b1 b2 b3, t)
    → (code : List ℕ) × (calculate_code env qt fuel name period s ≡ some (success code, t))
      × Shows digits (be32 b0 b1 b2 b3 % 10 ^ digits) (text code)
unfolding calculate_code read_clock
calculate_code-Shows env qt fuel name period digits b0 b1 b2 b3 s t dec h0 h1 h2 h3 lo hi positive
      answer =
    let (yk, nitrokey) = parse_code-Shows qt digits b0 b1 b2 b3 h0 h1 h2 h3 dec lo hi in
    let (code, e, len, value, is_digit) = yk in
    let status = status_of_code digits b0 b1 b2 b3 in
    (
      code,
      bind-some (totp_challenge env qt fuel _ period) _ _ _ _
            (totp_challenge-positive env qt fuel _ period _ positive)
          ∙ bind-some (send_apdu env fuel _) _ _ t _ answer
          ∙ rw (not_empty (code_response digits b0 b1 b2 b3) status, status, e)
              (rw (shown code (omega arith)) refl),
      (code, refl, len, value, is_digit),
    )
