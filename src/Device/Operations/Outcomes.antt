-- ===== src/Device/Operations/Outcomes.antt =====
-- What the operations of a device did, by what they returned.
use yubikey_oath_krunner.Prelude.{
  ℕ, ◌≡◌, ◌≢◌, sym, ap, ◌∙◌, ◌⊎◌, Bool, false, List, [], ◌∷◌, none, some, arith, is_empty,
  if◌then◌else◌,
}
use yubikey_oath_krunner.Prelude.Text.{Qt}
use yubikey_oath_krunner.Credential.{OathCredential}
use yubikey_oath_krunner.Session.{
  Env, State, touch_required, Result, success, error, credential_not_found,
}
use yubikey_oath_krunner.Session.Password
use yubikey_oath_krunner.Session.Operations.{select_oath_application}
use yubikey_oath_krunner.Device.{Pcsc, SessionClass, DeviceWorld, D}
use yubikey_oath_krunner.Device.Operations.{
  find_original, with_transaction, generate_code, authenticate,
}
use yubikey_oath_krunner.Device.Operations.Bind.{
  begun_state, with_transaction_begun, in_transaction-inv,
}

module _ (env : Env) (pcsc : Pcsc (env.W)) (class : SessionClass (env.W)) (qt : Qt) (fuel : ℕ) where
  open env use {W}

  -- A transaction that was begun is ended, whatever its SELECT and its body return: the end is the
  -- last thing that happens to the card.
  pub with_transaction-ends :
      {A : Type 0} (skip : Bool) (body : D W (Result A)) (s t : DeviceWorld W) (r : Result A)
      → with_transaction env pcsc class qt fuel skip body s ≡ some (r, t)
      → s.device.card_handle ≢ 0
      → (pcsc.begin_transaction s.device.card_handle s.world).0 ≡ none
      → (w : W) × (t.world ≡ pcsc.end_transaction s.device.card_handle w)
  with_transaction-ends skip body s t r h open_card begun =
      let begin = record s { world = (pcsc.begin_transaction s.device.card_handle s.world).1 } in
      let (selected, u, v, e, ran, left) =
        in_transaction-inv env pcsc class qt fuel skip body s.device.card_handle r begin t
          (sym (with_transaction_begun env pcsc class qt fuel skip body s open_card begun) ∙ h) in
      (v.world, ap (λ x. x.world) left)

  module _ (name : List ℕ) (s : DeviceWorld W) where
    -- Where the cache has no credential with the name, the card is not touched.
    pub generate_code-unknown :
        find_original name s.device.credentials ≡ none
        → generate_code env pcsc class qt fuel name s ≡ some (error credential_not_found, s)
    unfolding generate_code
    generate_code-unknown e = ground (arith, e)

  module _ (s : DeviceWorld W) where
    -- How the transaction was entered: with SELECT, unless the device has a password.
    abbrev pub Entered : State W → Type 0
    Entered x =
        ((is_empty s.device.password ≡ false) × (x ≡ begun_state env pcsc class qt fuel s))
        ⊎ ((s.device.password ≡ [])
            × (challenge : List ℕ) × (select_oath_application env qt fuel class.parse_select
                  (begun_state env pcsc class qt fuel s)
                ≡ some (success challenge, x)))

    -- The device has no password, or the session authenticated with it, from one state to the other.
    abbrev pub LoggedIn : State W → State W → Type 0
    LoggedIn x y =
        ((s.device.password ≡ []) × (y ≡ x))
        ⊎ (Password.authenticate env qt fuel class.parse_select s.device.password s.device.device_id
              x
            ≡ some (success tt, y))

    -- The touch signal was sent, if the credential asks for a touch, and nothing else happened.
    abbrev pub Announced : Bool → State W → State W → Type 0
    Announced requires_touch y u = u ≡ (
        if requires_touch
        then record y {
          session = record (y.session) { events = touch_required ∷ y.session.events };
        }
        else y)

    -- What a code that was returned went through: from the state `x` on, it is what CALCULATE gave.
    abbrev pub Calculated : OathCredential → List ℕ → List ℕ → State W → State W → Type 0
    Calculated c name code x v =
        (y u : State W) × LoggedIn x y
        × Announced c.requires_touch y u
        × (class.calculate_code name c.period u ≡ some (success code, v))
