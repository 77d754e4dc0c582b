-- ===== src/Session/Authentication.antt =====
-- What it takes for the password operations to succeed.
use yubikey_oath_krunner.Prelude.{
  ℕ, ◌≡◌, ◌≢◌, ◌∙◌, ap, List, [], some, arith, Bool, false, is_empty,
}
use yubikey_oath_krunner.Prelude.Text.{Qt}
use yubikey_oath_krunner.Status.{get_status_word}
use yubikey_oath_krunner.Command.{create_validate_command}
use yubikey_oath_krunner.Select.{SelectOut}
use yubikey_oath_krunner.Session.{Env, State, no_challenge, success}
use yubikey_oath_krunner.Session.Bind.{bind-inv, bind-some, after_error, after_empty}
use yubikey_oath_krunner.Session.Outcomes.{sent}
use yubikey_oath_krunner.Session.Transport.{send_apdu}
use yubikey_oath_krunner.Session.Operations.{select_oath_application}
use yubikey_oath_krunner.Session.Password.{
  validate_status, validate_result, mismatched, random_challenge, send_validate, authenticate,
}

validate_status-success : (sw : ℕ) → validate_status sw ≡ success tt → sw ≡ 0x9000
unfolding validate_status
validate_status-success sw h = ground arith

module _ (env : Env) (qt : Qt) (fuel : ℕ) (parse : List ℕ → SelectOut → SelectOut × Bool) where
  open env use {W, random_bytes, pbkdf2, hmac_sha1, from_hex}

  -- The state after eight random bytes were drawn.
  abbrev pub drawn : State W → State W
  drawn s = record s { world = (random_bytes 8 s.world).1 }

  send_validate-success :
      (key challenge : List ℕ) (s t : State W)
      → send_validate env qt fuel parse key challenge s ≡ some (success tt, t)
      → (response : List ℕ) × (send_apdu env fuel
            (create_validate_command (hmac_sha1 challenge key) (random_bytes 8 s.world).0)
            (drawn s)
          ≡ some (response, t))
        × (get_status_word response ≡ 0x9000)
  unfolding send_validate random_challenge
  send_validate-success key challenge s t h =
      let (response, e, ok) =
        sent env fuel (create_validate_command (hmac_sha1 challenge key) (random_bytes 8 s.world).0)
          validate_status (drawn s) t h in
      (response, e, validate_status-success (get_status_word response) ok)

  -- The key that a password gives for the device.
  abbrev pub key_of : List ℕ → List ℕ → List ℕ
  key_of password device_id = pbkdf2 (qt.to_utf8 password) (from_hex device_id)

  -- The application was selected and gave a challenge; its HMAC under the password's key was sent
  -- and answered with 0x9000.
  abbrev pub Authenticated : List ℕ → List ℕ → State W → State W → Type 0
  Authenticated password device_id s t =
      (challenge response : List ℕ) × (u : State W) × (select_oath_application env qt fuel parse s
        ≡ some (success challenge, u))
      × (challenge ≢ [])
      × (send_apdu env fuel
            (create_validate_command (hmac_sha1 challenge (key_of password device_id))
              (random_bytes 8 u.world).0)
            (drawn u)
          ≡ some (response, t))
      × (get_status_word response ≡ 0x9000)

  -- A successful authentication selected the application and got a challenge, sent VALIDATE with the
  -- HMAC of that challenge under the password's key, and was answered with 0x9000.
  pub authenticate-success :
      (password device_id : List ℕ) (s t : State W)
      → authenticate env qt fuel parse password device_id s ≡ some (success tt, t)
      → Authenticated password device_id s t
  unfolding authenticate
  authenticate-success password device_id s t h =
      let (selected, u, e, r) =
        bind-inv (select_oath_application env qt fuel parse) _ s t (success tt) h in
      let (challenge, is, r') = after_error selected (λ x. x) _ u t tt r in
      let (nonempty, v) = after_empty challenge no_challenge _ u t tt r' in
      let (response, sent_to, ok) =
        send_validate-success (key_of password device_id) challenge u t v in
      (challenge, response, u, e ∙ ap (λ x. some (x, u)) is, nonempty, sent_to, ok)

  -- The card's response to our own challenge decides nothing: the authentication succeeds even where
  -- the response is found to differ from what the key gives for the challenge.
  pub send_validate-any_proof :
      (key challenge response : List ℕ) (s t : State W)
      → send_apdu env fuel
          (create_validate_command (hmac_sha1 challenge key) (random_bytes 8 s.world).0)
          (drawn s)
        ≡ some (response, t)
      → is_empty response ≡ false
      → (validate_result (hmac_sha1 (random_bytes 8 s.world).0 key) response).1 ≡ mismatched
      → send_validate env qt fuel parse key challenge s ≡ some (success tt, t)
  unfolding send_validate random_challenge validate_result validate_status
  send_validate-any_proof key challenge response s t h full wrong =
      bind-some (send_apdu env fuel _) _ _ t _ h ∙ rw full (ground (arith, wrong))
