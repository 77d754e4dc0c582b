-- ===== src/Session/PasswordChange.antt =====
-- What it takes to set, remove and change the password of the card.
use yubikey_oath_krunner.Prelude.{
  ℕ, ◌≡◌, ◌≢◌, ◌⊎◌, inl, inr, refl, ◌∙◌, ap, List, [], ◌∷◌, some, arith, ◌==◌, is_empty,
  if◌then◌else◌, length, list_eq→eq, not, Bool,
}
use yubikey_oath_krunner.Prelude.Text.{Qt}
use yubikey_oath_krunner.Tlv.{find_tlv_tag}
use yubikey_oath_krunner.Status.{get_status_word, payload}
use yubikey_oath_krunner.Command.{tag_response, create_set_code_command, create_remove_code_command}
use yubikey_oath_krunner.Select.{SelectOut}
use yubikey_oath_krunner.Session.{
  Env, State, Error, wrong_current_password, select_error, success, error,
}
use yubikey_oath_krunner.Session.Bind.{
  bind-inv, bind-some, after_error, after_empty, after_test, pure-inv,
}
use yubikey_oath_krunner.Session.Authentication.{Authenticated, drawn, authenticate-success}
use yubikey_oath_krunner.Session.Outcomes.{sent}
use yubikey_oath_krunner.Session.Transport.{send_apdu}
use yubikey_oath_krunner.Session.Operations.{select_oath_application}
use yubikey_oath_krunner.Session.Password.{
  remove_result, set_code_result, parse_set_code_response, random_challenge, authenticate,
  send_set_code, set_password, remove_password, change_password,
}

remove_result-success : (sw : ℕ) → remove_result sw ≡ success tt → sw ≡ 0x9000
unfolding remove_result
remove_result-success sw h = ground arith

-- The answer to SET CODE is taken for success.
set_code_result-success :
    (response expected : List ℕ)
    → set_code_result response expected ≡ success tt
    → (get_status_word response ≡ 0x9000)
      × ((find_tlv_tag (payload response) tag_response ≡ [])
          ⊎ (find_tlv_tag (payload response) tag_response ≡ expected))
unfolding set_code_result parse_set_code_response
set_code_result-success response expected h =
    ground (arith, list_eq→eq (find_tlv_tag (payload response) tag_response) expected)

module _ (env : Env) (qt : Qt) (fuel : ℕ) (parse : List ℕ → SelectOut → SelectOut × Bool) where
  open env use {W, random_bytes, pbkdf2, hmac_sha1, from_hex}

  -- The key of a new password, whose device id is a text here.
  abbrev pub new_key : List ℕ → List ℕ → List ℕ
  new_key password device_id = pbkdf2 (qt.to_utf8 password) (from_hex (qt.to_utf8 device_id))

  -- The application was selected, and SET CODE with the new key was answered with 0x9000 and, if with
  -- any response to the challenge, with the right one.
  abbrev pub PasswordSet : List ℕ → List ℕ → State W → State W → Type 0
  PasswordSet password device_id s t =
      let key = new_key password device_id in
      (old_challenge response : List ℕ) × (u : State W) × (select_oath_application env qt fuel parse
          s
        ≡ some (success old_challenge, u))
      × (length key ≡ 16)
      × (let challenge = (random_bytes 8 u.world).0 in
          let expected = hmac_sha1 challenge key in
          (send_apdu env fuel (create_set_code_command key challenge expected)
              (drawn env qt fuel parse u)
            ≡ some (response, t))
          × (get_status_word response ≡ 0x9000)
          × ((find_tlv_tag (payload response) tag_response ≡ [])
              ⊎ (find_tlv_tag (payload response) tag_response ≡ expected)))

  send_set_code-success :
      (key : List ℕ) (u t : State W)
      → send_set_code env qt fuel parse key u ≡ some (success tt, t)
      → (let challenge = (random_bytes 8 u.world).0 in
          let expected = hmac_sha1 challenge key in
          (response : List ℕ) × (send_apdu env fuel
              (create_set_code_command key challenge expected)
              (drawn env qt fuel parse u)
            ≡ some (response, t))
          × (get_status_word response ≡ 0x9000)
          × ((find_tlv_tag (payload response) tag_response ≡ [])
              ⊎ (find_tlv_tag (payload response) tag_response ≡ expected)))
  unfolding send_set_code random_challenge
  send_set_code-success key u t h =
      let (response, v, e, r) =
        bind-inv (send_apdu env fuel _) _ (drawn env qt fuel parse u) t (success tt) h in
      let (same, ok) = pure-inv (set_code_result response _) (success tt) v t r in
      let (sw, proof) = set_code_result-success response _ ok in
      (response, e ∙ ap (λ w. some (response, w)) same, sw, proof)

  -- A password that is reported as set is not empty, nor is the device id; the application was
  -- selected, and SET CODE with the 16 bytes of the new key was answered with 0x9000 and with either
  -- no response to the challenge or the right one.
  pub set_password-success :
      (password device_id : List ℕ) (s t : State W)
      → set_password env qt fuel parse password device_id s ≡ some (success tt, t)
      → (password ≢ []) × (device_id ≢ []) × PasswordSet password device_id s t
  unfolding set_password
  set_password-success password device_id s t h =
      let (some_password, h1) = after_empty password _ _ s t tt h in
      let (some_id, h2) = after_empty device_id _ _ s t tt h1 in
      let (selected, u, e, r) =
        bind-inv (select_oath_application env qt fuel parse) _ s t (success tt) h2 in
      let (challenge, is, r') = after_error selected select_error _ u t tt r in
      let (sixteen, r'') =
        after_test (not (length (new_key password device_id) == 16)) _ _ u t tt r' in
      let (response, sent_to, ok, proof) =
        send_set_code-success (new_key password device_id) u t r'' in
      (
        some_password,
        some_id,
        (
          challenge,
          response,
          u,
          e ∙ ap (λ x. some (x, u)) is,
          ground (arith, sixteen),
          (sent_to, ok, proof),
        ),
      )

  remove_password-success :
      (s t : State W)
      → remove_password env qt fuel parse s ≡ some (success tt, t)
      → (response : List ℕ) × (send_apdu env fuel create_remove_code_command s ≡ some (response, t))
        × (get_status_word response ≡ 0x9000)
  unfolding remove_password
  remove_password-success s t h =
      let (response, e, ok) = sent env fuel create_remove_code_command remove_result s t h in
      (response, e, remove_result-success (get_status_word response) ok)

  -- The password was removed, if the new one is empty, or set to the new one.
  abbrev pub Changed : List ℕ → List ℕ → State W → State W → Type 0
  Changed password device_id s t =
      ((password ≡ [])
        × (response : List ℕ) × (send_apdu env fuel create_remove_code_command s
            ≡ some (response, t))
        × (get_status_word response ≡ 0x9000))
      ⊎ ((password ≢ []) × PasswordSet password device_id s t)

  finish_change-success :
      (password device_id : List ℕ) (s t : State W)
      → (if is_empty password
            then remove_password env qt fuel parse
            else set_password env qt fuel parse password device_id)
          s
        ≡ some (success tt, t)
      → Changed password device_id s t
  finish_change-success [] device_id s t h =
      let (response, e, sw) = remove_password-success s t h in inl (refl, response, e, sw)
  finish_change-success (c ∷ cs) device_id s t h =
      let (some_password, some_id, set) = set_password-success (c ∷ cs) device_id s t h in
      inr (some_password, set)

  -- A change that is reported as done followed an authentication with the old password, if there was
  -- one, and then removed or set the password on the card.
  pub change_password-success :
      (old new device_id : List ℕ) (s t : State W)
      → change_password env qt fuel parse old new device_id s ≡ some (success tt, t)
      → ((old ≡ []) × Changed new device_id s t)
        ⊎ ((old ≢ [])
            × (u : State W) × Authenticated env qt fuel parse old device_id s u
            × Changed new device_id u t)
  unfolding change_password
  change_password-success [] new device_id s t h =
      inl (refl, finish_change-success new device_id s t h)
  change_password-success (c ∷ cs) new device_id s t h =
      let (result, u, e, r) =
        bind-inv (authenticate env qt fuel parse (c ∷ cs) device_id) _ s t (success tt) h in
      let (unit, is, r') = after_error result wrong_current_password _ u t tt r in
      let done = e ∙ ap (λ x. some (x, u)) is in
      inr (
        (λ none. cc),
        u,
        authenticate-success env qt fuel parse (c ∷ cs) device_id s u done,
        finish_change-success new device_id u t r',
      )

  -- With a wrong old password nothing more is sent: the state is that of the failed authentication.
  pub change_password-refused :
      (old new device_id : List ℕ) (s u : State W) (e : Error)
      → old ≢ []
      → authenticate env qt fuel parse old device_id s ≡ some (error e, u)
      → change_password env qt fuel parse old new device_id s
        ≡ some (error (wrong_current_password e), u)
  unfolding change_password
  change_password-refused [] new device_id s u e h r = absurd (h refl)
  change_password-refused (c ∷ cs) new device_id s u e h r =
      bind-some (authenticate env qt fuel parse (c ∷ cs) device_id) _ s u (error e) r
