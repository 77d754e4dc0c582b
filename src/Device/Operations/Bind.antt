-- ===== src/Device/Operations/Bind.antt =====
-- Laws of the device's monad: what the parts of a chain did that returned.
use yubikey_oath_krunner.Prelude.{
  ℕ, ◌≡◌, ◌≢◌, refl, sym, ap, ◌∙◌, Bool, List, Option, none, some, arith, Option-cases, inl, inr,
}
use yubikey_oath_krunner.Prelude.Text.{Qt}
use yubikey_oath_krunner.Session.{Env, State, M, Error, Result, success, error}
use yubikey_oath_krunner.Device.{Pcsc, SessionClass, DeviceWorld, D, pure, ◌>>=◌, in_session}
use yubikey_oath_krunner.Device.Operations.{
  with_transaction, in_transaction, select_unless, body_after, end_with,
}

after_none :
    {W A B : Type 0} (o : Option (A × DeviceWorld W)) (f : A → D W B) (t : DeviceWorld W) (b : B)
    → elim o [ none ↦ none | some (a, u) ↦ f a u ] ≡ some (b, t)
    → (a : A) × (u : DeviceWorld W) × (o ≡ some (a, u)) × (f a u ≡ some (b, t))
after_none none f t b h = cc
after_none (some (a, u)) f t b h = (a, u, refl, h)

pub bind-inv :
    {W A B : Type 0} (m : D W A) (f : A → D W B) (s t : DeviceWorld W) (b : B)
    → (m >>= f) s ≡ some (b, t)
    → (a : A) × (u : DeviceWorld W) × (m s ≡ some (a, u)) × (f a u ≡ some (b, t))
bind-inv m f s t b h = after_none (m s) f t b h

-- A step behind a result succeeded, so the result was no error.
pub after_error :
    {W A B : Type 0} (r : Result A) (f : Error → Error) (k : A → D W (Result B))
    (u t : DeviceWorld W) (b : B)
    → (elim r as (λ x. D W (Result B)) [ error e ↦ pure (error (f e)) | success a ↦ k a ]) u
      ≡ some (success b, t)
    → (a : A) × (r ≡ success a) × (k a u ≡ some (success b, t))
after_error (error e) f k u t b h = absurd cc
after_error (success a) f k u t b h = (a, refl, h)

-- Two worlds whose devices differ in the session at most.
abbrev pub SameDevice : {W : Type 0} → DeviceWorld W → DeviceWorld W → Type 0
SameDevice s v = v.device ≡ record (s.device) { session = v.device.session }

pub in_session-SameDevice :
    {W A : Type 0} (m : M W A) (s t : DeviceWorld W) (a : A)
    → in_session m s ≡ some (a, t)
    → SameDevice s t
in_session-SameDevice m s t a h = ground (arith, h)

-- The state in which a device calls its session.
abbrev pub entry : {W : Type 0} → DeviceWorld W → State W
entry s = record { session = s.device.session; world = s.world }

pub in_session-inv :
    {W A : Type 0} (m : M W A) (s t : DeviceWorld W) (a : A)
    → in_session m s ≡ some (a, t)
    → (v : State W) × (m (entry s) ≡ some (a, v))
in_session-inv m s t a h = elim (Option-cases (m (entry s))) [
  | inl e ↦ absurd (ground (arith, h, e))
  | inr ((b, v), e) ↦ (v, ground (arith, h, e))
]

-- The device with the session and the world of a state of its session.
abbrev pub seat : {W : Type 0} → DeviceWorld W → State W → DeviceWorld W
seat s x = record { device = record (s.device) { session = x.session }; world = x.world }

-- A call of the session goes from a state of the session to one.
pub in_session-seat :
    {W A : Type 0} (m : M W A) (s t : DeviceWorld W) (x : State W) (a : A)
    → in_session m (seat s x) ≡ some (a, t)
    → (v : State W) × (m x ≡ some (a, v)) × (t ≡ seat s v)
in_session-seat m s t x a h = elim (Option-cases (m x)) [
  | inl e ↦ absurd (ground (arith, h, e))
  | inr ((b, v), e) ↦ (v, ground (arith, h, e), ground (arith, h, e))
]

module _ (env : Env) (pcsc : Pcsc (env.W)) (class : SessionClass (env.W)) (qt : Qt) (fuel : ℕ) where
  open env use {W}

  -- The session and the world once the transaction has begun.
  abbrev pub begun_state : DeviceWorld W → State W
  begun_state s = record {
    session = s.device.session;
    world = (pcsc.begin_transaction s.device.card_handle s.world).1;
  }

  module _ {A : Type 0} (skip : Bool) (body : D W (Result A)) where
    pub with_transaction_begun :
        (s : DeviceWorld W)
        → s.device.card_handle ≢ 0
        → (pcsc.begin_transaction s.device.card_handle s.world).0 ≡ none
        → with_transaction env pcsc class qt fuel skip body s
          ≡ in_transaction env pcsc class qt fuel s.device.card_handle skip body
              (record s { world = (pcsc.begin_transaction s.device.card_handle s.world).1 })
    unfolding with_transaction
    with_transaction_begun s open_card begun = ground (arith, open_card, begun)

    end_with-inv :
        (handle : ℕ) (result r : Result A) (v t : DeviceWorld W)
        → end_with env pcsc class qt fuel handle result v ≡ some (r, t)
        → (result ≡ r) × (t ≡ record v { world = pcsc.end_transaction handle v.world })
    unfolding end_with
    end_with-inv handle result r v t h = ground (arith, h)

    -- What happened in a transaction that had begun.
    pub in_transaction-inv :
        (handle : ℕ) (r : Result A) (s t : DeviceWorld W)
        → in_transaction env pcsc class qt fuel handle skip body s ≡ some (r, t)
        → (selected : Result (List ℕ)) × (u v : DeviceWorld W) × (select_unless env pcsc class qt
              fuel skip s
            ≡ some (selected, u))
          × (body_after env pcsc class qt fuel body selected u ≡ some (r, v))
          × (t ≡ record v { world = pcsc.end_transaction handle v.world })
    unfolding in_transaction
    in_transaction-inv handle r s t h =
        let (selected, u, e, h1) = bind-inv (select_unless env pcsc class qt fuel skip) _ s t r h in
        let (result, v, e', h2) =
          bind-inv (body_after env pcsc class qt fuel body selected)
            (end_with env pcsc class qt fuel handle) u t r h1 in
        let (same, left) = end_with-inv handle result r v t h2 in
        (selected, u, v, e, e' ∙ ap (λ x. some (x, v)) same, left)

    body_after-success :
        (selected : Result (List ℕ)) (a : A) (u v : DeviceWorld W)
        → body_after env pcsc class qt fuel body selected u ≡ some (success a, v)
        → (challenge : List ℕ) × (selected ≡ success challenge) × (body u ≡ some (success a, v))
    unfolding body_after
    body_after-success (error e) a u v h = absurd cc
    body_after-success (success challenge) a u v h = (challenge, refl, h)

    with_transaction_refused :
        (a : A) (s t : DeviceWorld W)
        → with_transaction env pcsc class qt fuel skip body s ≡ some (success a, t)
        → (s.device.card_handle ≢ 0)
          × ((pcsc.begin_transaction s.device.card_handle s.world).0 ≡ none)
    unfolding with_transaction
    with_transaction_refused a s t h = (λ e. ground (arith, h, e), ground (arith, h))

    -- A transaction whose result is a success: the card was there, the transaction began, SELECT
    -- succeeded where it is sent, then the body, and then the transaction was ended.
    pub with_transaction-success :
        (a : A) (s t : DeviceWorld W)
        → with_transaction env pcsc class qt fuel skip body s ≡ some (success a, t)
        → (s.device.card_handle ≢ 0)
          × ((pcsc.begin_transaction s.device.card_handle s.world).0 ≡ none)
          × (challenge : List ℕ) × (u v : DeviceWorld W) × (select_unless env pcsc class qt fuel
                skip
                (seat s (begun_state s))
              ≡ some (success challenge, u))
          × (body u ≡ some (success a, v))
          × (t ≡ record v { world = pcsc.end_transaction s.device.card_handle v.world })
    with_transaction-success a s t h =
        let (open_card, begun) = with_transaction_refused a s t h in
        let (selected, u, v, e, ran, left) =
          in_transaction-inv s.device.card_handle (success a) (seat s (begun_state s)) t
            (sym (with_transaction_begun s open_card begun) ∙ h) in
        let (challenge, is, body_ran) = body_after-success selected a u v ran in
        (open_card, begun, challenge, u, v, e ∙ ap (λ r. some (r, u)) is, body_ran, left)
