-- ===== src/Device/Reconnect/Attempts.antt =====
-- What a reconnect leaves behind.
use yubikey_oath_krunner.Prelude.{
  ℕ, ◌≡◌, ◌⊎◌, inl, inr, Bool, true, false, List, [], ◌∷◌, Option, none, some, arith, subst, ◌==◌,
  ◌++◌, sym, ap, ◌∙◌, refl, if◌then◌else◌,
}
use yubikey_oath_krunner.Prelude.Text.{Qt}
use yubikey_oath_krunner.Session.{Env, Error, Result, success, error, reconnect_exhausted}
use yubikey_oath_krunner.Device.{Pcsc, SessionClass, DeviceWorld}
use yubikey_oath_krunner.Device.Operations.Bind.{bind-inv}
use yubikey_oath_krunner.Session.Transport.{update_card_handle}
use yubikey_oath_krunner.Device.Reconnect.{
  store_handle, select_on, keep_or_close, try_card, attempt, wait_ms, attempts, drop_handle,
  reconnect_card_handle, delays,
}

module _ (env : Env) (pcsc : Pcsc (env.W)) (class : SessionClass (env.W)) (qt : Qt) (fuel : ℕ) where
  open env use {W}

  -- The world after the wait before an attempt.
  abbrev pub waited : ℕ → W → W
  waited ms w = if ms == 0 then w else env.sleep_ms ms w

  -- SCardConnect for T0 or T1 after the wait.
  abbrev pub connection : List ℕ → ℕ → W → Option (ℕ × ℕ) × W
  connection reader ms w = pcsc.connect 3 reader (waited ms w)

  -- An attempt after a wait fails: there is no connection, or SELECT fails on it and it is closed.
  pub data Failure (reader : List ℕ) (ms : ℕ) (s : DeviceWorld W) : DeviceWorld W → Type 0 where
    no_connection :
        (connection reader ms s.world).0 ≡ none
        → Failure reader ms s (record s { world = (connection reader ms s.world).1 })
    no_select :
        (handle protocol : ℕ) (e : Error) (w : W)
        → (connection reader ms s.world).0 ≡ some (handle, protocol)
        → select_on env pcsc class qt fuel handle protocol
            (record s { world = (connection reader ms s.world).1 })
          ≡ some (error e, record s { world = w })
        → Failure reader ms s (record s { world = pcsc.disconnect handle w })

  -- Attempts that fail, one after each of the waits.
  pub data Failures (reader : List ℕ) : List ℕ → DeviceWorld W → DeviceWorld W → Type 0 where
    none_left : (s : DeviceWorld W) → Failures reader [] s s
    one_more :
        (ms : ℕ) (waits : List ℕ) (s u t : DeviceWorld W)
        → Failure reader ms s u
        → Failures reader waits u t
        → Failures reader (ms ∷ waits) s t

  -- An attempt after a wait succeeds: SCardConnect gives the handle and the protocol, SELECT succeeds on
  -- them, and the device and its session have them then, and nothing else of the device changes.
  abbrev pub Renewed : List ℕ → ℕ → DeviceWorld W → DeviceWorld W → Type 0
  Renewed reader ms s t =
      (handle protocol : ℕ) × (challenge : List ℕ) × (w : W) × ((connection reader ms s.world).0
        ≡ some (handle, protocol))
      × (select_on env pcsc class qt fuel handle protocol
            (record s { world = (connection reader ms s.world).1 })
          ≡ some (success challenge, record s { world = w }))
      × (t ≡ record {
        device = record (s.device) {
          card_handle = handle;
          session = record (s.device.session) { card_handle = handle; protocol = protocol };
        };
        world = w;
      })

  -- How the attempts after the waits end.
  abbrev pub Ends : List ℕ → List ℕ → DeviceWorld W → DeviceWorld W → Result (Unit {0}) → Type 0
  Ends reader waits s t r =
      ((r ≡ success tt)
        × (early late : List ℕ) × (ms : ℕ) × (u : DeviceWorld W) × (waits ≡ early ++ ms ∷ late)
        × Failures reader early s u
        × Renewed reader ms u t)
      ⊎ ((r ≡ error reconnect_exhausted) × Failures reader waits s t × (t.device ≡ s.device))

  pub Failure-device :
      {reader : List ℕ} {ms : ℕ} {s t : DeviceWorld W} → Failure reader ms s t → t.device ≡ s.device
  Failure-device (no_connection e) = refl
  Failure-device (no_select handle protocol e w con sel) = refl

  abbrev Honest : List ℕ → ℕ → DeviceWorld W → DeviceWorld W → Bool → Type 0
  Honest reader ms s t b =
      ((b ≡ true) × Renewed reader ms s t) ⊎ ((b ≡ false) × Failure reader ms s t)

  select_on-device :
      (handle protocol : ℕ) (selected : Result (List ℕ)) (s u : DeviceWorld W)
      → select_on env pcsc class qt fuel handle protocol s ≡ some (selected, u)
      → u ≡ record s { world = u.world }
  unfolding select_on
  select_on-device handle protocol selected s u h = ground (arith, h)

  keep_or_close-Honest :
      (reader : List ℕ) (ms handle protocol : ℕ) (selected : Result (List ℕ))
      (s u t : DeviceWorld W) (b : Bool)
      → (connection reader ms s.world).0 ≡ some (handle, protocol)
      → select_on env pcsc class qt fuel handle protocol
          (record s { world = (connection reader ms s.world).1 })
        ≡ some (selected, u)
      → keep_or_close env pcsc class qt fuel handle protocol selected u ≡ some (b, t)
      → Honest reader ms s t b
  unfolding keep_or_close store_handle update_card_handle
  keep_or_close-Honest reader ms handle protocol (error e) s u t b con sel h =
      let at = select_on-device handle protocol (error e) _ u sel in
      let closed : t ≡ record s { world = pcsc.disconnect handle u.world } =
        ground (arith, h, at) in
      inr (
        ground (arith, h),
        subst (λ x. Failure reader ms s x) (sym closed)
            (no_select handle protocol e u.world con (sel ∙ ap (λ x. some (error e, x)) at)),
      )
  keep_or_close-Honest reader ms handle protocol (success challenge) s u t b con sel h =
      let at = select_on-device handle protocol (success challenge) _ u sel in
      inl (
        ground (arith, h),
        (
          handle,
          protocol,
          challenge,
          u.world,
          con,
          sel ∙ ap (λ x. some (success challenge, x)) at,
          ground (arith, h, at),
        ),
      )

  try_card-Honest :
      (reader : List ℕ) (ms : ℕ) (connected : Option (ℕ × ℕ)) (s t : DeviceWorld W) (b : Bool)
      → (connection reader ms s.world).0 ≡ connected
      → try_card env pcsc class qt fuel connected
          (record s { world = (connection reader ms s.world).1 })
        ≡ some (b, t)
      → Honest reader ms s t b
  unfolding try_card
  try_card-Honest reader ms none s t b con h =
      let left : t ≡ record s { world = (connection reader ms s.world).1 } = ground (arith, h) in
      inr (ground (arith, h), subst (λ x. Failure reader ms s x) (sym left) (no_connection con))
  try_card-Honest reader ms (some (handle, protocol)) s t b con h =
      let (selected, u, sel, h1) =
        bind-inv (select_on env pcsc class qt fuel handle protocol)
          (keep_or_close env pcsc class qt fuel handle protocol) _ t b h in
      keep_or_close-Honest reader ms handle protocol selected s u t b con sel h1

  attempt-Honest :
      (reader : List ℕ) (ms : ℕ) (s t : DeviceWorld W) (b : Bool)
      → attempt env pcsc class qt fuel reader (record s { world = waited ms s.world }) ≡ some (b, t)
      → Honest reader ms s t b
  unfolding attempt
  attempt-Honest reader ms s t b h =
      try_card-Honest reader ms (connection reader ms s.world).0 s t b refl h

  attempts-Ends :
      (reader waits : List ℕ) (s t : DeviceWorld W) (r : Result (Unit {0}))
      → attempts env pcsc class qt fuel reader waits s ≡ some (r, t)
      → Ends reader waits s t r
  unfolding attempts wait_ms
  attempts-Ends reader [] s t r h =
      let left : s ≡ t = ground (arith, h) in
      inr (
        ground (arith, h),
        subst (λ x. Failures reader [] s x) left (none_left s),
        ground (arith, h),
      )
  attempts-Ends reader (ms ∷ later) s t r h =
      let (b, u, ran, h1) =
        bind-inv (attempt env pcsc class qt fuel reader) _ (record s { world = waited ms s.world })
          t r h in
      elim (attempt-Honest reader ms s u b ran) [
        | inl (e, renewed) ↦
            let last : u ≡ t = ground (arith, h1, e) in
            inl (
              ground (arith, h1, e),
              [],
              later,
              ms,
              s,
              refl,
              none_left s,
              subst (λ x. Renewed reader ms s x) last renewed,
            )
        | inr (e, failure) ↦ elim (attempts-Ends reader later u t r (ground (arith, h1, e))) [
          | inl (done, early, late, ms', v, split, failures, renewed) ↦ inl (
            done,
            ms ∷ early,
            late,
            ms',
            v,
            ap (λ waits. ms ∷ waits) split,
            one_more ms early s u v failure failures,
            renewed,
          )
          | inr (done, failures, same) ↦
              inr (done, one_more ms later s u t failure failures, same ∙ Failure-device failure)
        ]
      ]

  -- The device and the card after the old handle was closed, if there was one.
  abbrev pub dropped : DeviceWorld W → DeviceWorld W
  dropped s = if s.device.card_handle == 0 then s else record {
    device = record (s.device) { card_handle = 0 };
    world = pcsc.disconnect s.device.card_handle s.world;
  }

  drop_handle-dropped :
      (s u : DeviceWorld W) → drop_handle env pcsc class qt fuel s ≡ some (tt, u) → u ≡ dropped s
  unfolding drop_handle
  drop_handle-dropped s u h = ground (arith, h)

  -- A reconnect closes the old handle and makes up to six attempts, after waits of 0, 100, 200, 400, 800
  -- and 1600 milliseconds. If it returns success, then one attempt, after all before it had failed, got a
  -- handle and a protocol from SCardConnect on which SELECT succeeded, the device and its session have
  -- these, and nothing else of the device has changed. Otherwise it returns an error, all six attempts
  -- failed, and the device is as it was without its handle.
  pub reconnect_card_handle-Ends :
      (reader : List ℕ) (s t : DeviceWorld W) (r : Result (Unit {0}))
      → reconnect_card_handle env pcsc class qt fuel reader s ≡ some (r, t)
      → Ends reader (0 ∷ 100 ∷ 200 ∷ 400 ∷ 800 ∷ 1600 ∷ []) (dropped s) t r
  unfolding reconnect_card_handle
  reconnect_card_handle-Ends reader s t r h =
      let (_, u, gone, h1) =
        bind-inv (drop_handle env pcsc class qt fuel)
          (λ x. attempts env pcsc class qt fuel reader delays) s t r h in
      subst (λ x. Ends reader delays x t r) (drop_handle-dropped s u gone)
        (attempts-Ends reader delays u t r h1)
