-- ===== src/Services/Codes/Fresh.antt =====
-- Which codes the cache gives out, and what it keeps of a device that is gone.
use native.Mathlib.Nat.{mod-lt, mul-mod_left, div-add-mod'}
use yubikey_oath_krunner.Prelude.{
  ℕ, ◌*◌, ◌≡◌, ◌<◌, ◌≤◌, ◌+◌, ◌-◌, ◌/◌, ◌%◌, refl, ap, sym, subst, Option-cases, ◌∙◌, ◌⊎◌, inl, inr,
  Bool, true, false, List, [], ◌∷◌, ◌++◌, none, some, arith, list_eq, list_eq_refl, is_empty,
  if◌then◌else◌, Bool-cases, ◌==◌,
}
use yubikey_oath_krunner.Prelude.Text.{codes, starts_with}
use yubikey_oath_krunner.Prelude.Maps.{
  lookup, insert, erase, list_eq_iff, lookup-insert_self, lookup-erase_self,
}
use yubikey_oath_krunner.Session.{Result, success, error, device_gone}
use yubikey_oath_krunner.Manager.{Manager, get_device, contains_text}
use yubikey_oath_krunner.Device.{Device}
use yubikey_oath_krunner.Services.Codes.{
  CachedCode, CodeService, code_generated, told, cache_key, without_prefix, keys_without_prefix,
  clear_cache_for_device, is_fresh, start_generation, generate_code_async, valid_until_of,
  finish_generation, worker_done, code_failed,
}

-- Text without a slash.
unfoldable pub no_slash : List ℕ → Bool
no_slash [] = true
no_slash (c ∷ cs) = if c == b'/' then false else no_slash cs

module _ (now : ℕ) (device_id name : List ℕ) (m : Manager) (s : CodeService) where
  -- What a request does where no code is in the cache: nothing while the code is being generated,
  -- an error where the device is not there, and a worker that is started otherwise.
  abbrev pub Asks : CodeService → CodeService → Type 0
  Asks x y =
      ((contains_text (cache_key device_id name) x.pending_generations ≡ true)
        × (y.code_signals ≡ x.code_signals)
        × (y.workers ≡ x.workers))
      ⊎ ((contains_text (cache_key device_id name) x.pending_generations ≡ false)
          × (get_device device_id m ≡ none)
          × (y.code_signals ≡ code_failed device_id name device_gone ∷ x.code_signals)
          × (y.workers ≡ x.workers))
      ⊎ ((contains_text (cache_key device_id name) x.pending_generations ≡ false)
          × (d : Device) × (get_device device_id m ≡ some d)
          × (y.code_signals ≡ x.code_signals)
          × (y.workers ≡ (device_id, name) ∷ x.workers)
          × (contains_text (cache_key device_id name) y.pending_generations ≡ true))

  start_generation-cache :
      (x : CodeService) → (start_generation device_id name m x).code_cache ≡ x.code_cache
  unfolding start_generation
  start_generation-cache x = ground arith

  start_generation-Asks : (x : CodeService) → Asks x (start_generation device_id name m x)
  unfolding start_generation
  start_generation-Asks x =
      let key = cache_key device_id name in
      elim (Bool-cases (contains_text key x.pending_generations)) [
        | inl e ↦ inl (e, ground (arith, e), ground (arith, e))
        | inr e ↦ elim (Option-cases (get_device device_id m)) [
          | inl gone ↦ inr (inl (e, gone, ground (arith, e, gone), ground (arith, e, gone)))
          | inr (d, there) ↦ inr (
              inr (
                e,
                d,
                there,
                ground (arith, e, there),
                ground (arith, e, there),
                ground (arith, e, there, list_eq_refl key),
              ))
        ]
      ]

  -- A cached code answers a request exactly if more than half of its period is left: then it is valid,
  -- and the one change is the signal with it. An older one leaves the cache without any answer: the
  -- request goes on as one for a code that is not in the cache.
  pub generate_code_async-fresh :
      (c : CachedCode)
      → is_empty device_id ≡ false
      → is_empty name ≡ false
      → lookup (cache_key device_id name) s.code_cache ≡ some c
      → ((now < c.valid_until)
          × (c.period / 2 < c.valid_until - now)
          × (generate_code_async now device_id name m s ≡ record s {
            code_signals = code_generated device_id name c.code c.valid_until ∷ s.code_signals;
          }))
        ⊎ ((c.valid_until ≤ now + c.period / 2)
            × (lookup
                  (cache_key device_id name)
                  (generate_code_async now device_id name m s).code_cache
                ≡ none)
            × Asks s (generate_code_async now device_id name m s))
  unfolding generate_code_async
  generate_code_async-fresh c full named there = elim (Bool-cases (is_fresh now c)) [
    | inl e ↦ inl (ground (arith, e), ground (arith, e), ground (arith, full, named, there, e))
    | inr e ↦
        let key = cache_key device_id name in
        let cleared = record s { code_cache = erase key s.code_cache } in
        let same : generate_code_async now device_id name m s
            ≡ start_generation device_id name m cleared =
          ground (arith, full, named, there, e) in
        inr (
          ground (arith, e),
          ap (λ (x : CodeService). lookup key x.code_cache) same
              ∙ ap (lookup key) (start_generation-cache cleared)
              ∙ lookup-erase_self key s.code_cache,
          subst (λ x. Asks s x) (sym same) (start_generation-Asks cleared),
        )
  ]

valid_until_of-bounds :
    (now period : ℕ)
    → 0 < period
    → (end : ℕ) × (valid_until_of now period ≡ some end)
      × (now < end)
      × (end ≤ now + period)
      × (end % period ≡ 0)
unfolding valid_until_of
valid_until_of-bounds now period h =
    let below : now % period < period = mod-lt now h in
    let multiple : now + (period - now % period) ≡ (now / period + 1) * period =
      omega (arith, div-add-mod' now period) in
    (
      now + (period - now % period),
      ground (arith, h),
      omega arith,
      omega arith,
      rw multiple (mul-mod_left (now / period + 1) period),
    )

-- A code that a worker brings is cached with the end of the period it lies in, a time after now and no
-- more than a period away, under the key of its device and name; a failure leaves the cache alone.
pub finish_generation-cached :
    (now period : ℕ) (device_id name : List ℕ) (r : Result (List ℕ)) (s : CodeService)
    → 0 < period
    → (t : CodeService) × (finish_generation now period device_id name r s ≡ some t)
      × (((code : List ℕ) × (end : ℕ) × (r ≡ success code)
            × (is_empty code ≡ false)
            × (now < end)
            × (end ≤ now + period)
            × (end % period ≡ 0)
            × (lookup (cache_key device_id name) t.code_cache
                ≡ some (record { code = code; valid_until = end; period = period })))
          ⊎ (t.code_cache ≡ s.code_cache))
unfolding finish_generation worker_done
finish_generation-cached now period device_id name (error e) s h = (_, refl, inr refl)
finish_generation-cached now period device_id name (success code) s h =
    let (end, at, after, near, whole) = valid_until_of-bounds now period h in
    let entry : CachedCode = record { code = code; valid_until = end; period = period } in
    let key = cache_key device_id name in
    let left = worker_done device_id name s in
    elim (Bool-cases (is_empty code)) [
      | inl e ↦
          (told (code_generated device_id name code end) left, ground (arith, at, e), inr refl)
      | inr e ↦ (
        told (code_generated device_id name code end)
            (record left { code_cache = insert key entry left.code_cache }),
        ground (arith, at, e, after),
        inl (code, end, refl, e, after, near, whole, lookup-insert_self key entry s.code_cache),
      )
    ]

-- A code of an HOTP credential, whose period is 0, ends the process when its worker is done.
pub finish_generation-hotp :
    (now : ℕ) (device_id name code : List ℕ) (s : CodeService)
    → finish_generation now 0 device_id name (success code) s ≡ none
unfolding finish_generation valid_until_of
finish_generation-hotp now device_id name code s = refl

-- The key of a credential begins with the id of its own device, and with no other's.
starts_with-key :
    (id j name : List ℕ)
    → no_slash id ≡ true
    → no_slash j ≡ true
    → starts_with (cache_key j name) (id ++ codes "/") ≡ list_eq id j
unfolding starts_with no_slash cache_key list_eq
starts_with-key [] [] name h g = refl
starts_with-key [] (c ∷ j) name h g = ground (arith, g)
starts_with-key (d ∷ id) [] name h g = ground (arith, h)
starts_with-key (d ∷ id) (c ∷ j) name h g =
    ground (arith, starts_with-key id j name (ground (arith, h)) (ground (arith, g)))

lookup-without_prefix :
    {V : Type 0} (prefix k : List ℕ) (m : List (List ℕ × V))
    → lookup k (without_prefix prefix m) ≡ (if starts_with k prefix then none else lookup k m)
unfolding lookup without_prefix
lookup-without_prefix prefix k [] = ground arith
lookup-without_prefix prefix k ((i, v) ∷ m) =
    ground (arith, list_eq_iff i k, lookup-without_prefix prefix k m)

-- When a device goes, its codes leave the cache, all of them and no other's: ids have no slash.
pub clear_cache_for_device-exact :
    (id j name : List ℕ) (s : CodeService)
    → no_slash id ≡ true
    → no_slash j ≡ true
    → lookup (cache_key j name) (clear_cache_for_device id s).code_cache
      ≡ (if list_eq id j then none else lookup (cache_key j name) s.code_cache)
unfolding clear_cache_for_device
clear_cache_for_device-exact id j name s h g =
    lookup-without_prefix (id ++ codes "/") (cache_key j name) s.code_cache
    ∙ rw (starts_with-key id j name h g) refl

contains-without_prefix :
    (prefix k : List ℕ) (ks : List (List ℕ))
    → starts_with k prefix ≡ true
    → contains_text k (keys_without_prefix prefix ks) ≡ false
unfolding keys_without_prefix
contains-without_prefix prefix k [] h = refl
contains-without_prefix prefix k (i ∷ ks) h =
    ground (arith, h, list_eq_iff i k, contains-without_prefix prefix k ks h)

module _ (now : ℕ) (device_id name : List ℕ) (d : Device) (m : Manager) (s : CodeService) where
  request-pending :
      is_empty device_id ≡ false
      → is_empty name ≡ false
      → lookup (cache_key device_id name) s.code_cache ≡ none
      → contains_text (cache_key device_id name) s.pending_generations ≡ true
      → generate_code_async now device_id name m s ≡ s
  unfolding generate_code_async start_generation
  request-pending full named missing pending = ground (arith, full, named, missing, pending)

  request-started :
      is_empty device_id ≡ false
      → is_empty name ≡ false
      → get_device device_id m ≡ some d
      → lookup (cache_key device_id name) s.code_cache ≡ none
      → contains_text (cache_key device_id name) s.pending_generations ≡ false
      → (generate_code_async now device_id name m s).workers ≡ (device_id, name) ∷ s.workers
  unfolding generate_code_async start_generation
  request-started full named there missing free = ground (arith, full, named, there, missing, free)

-- While a worker generates a code, a second request for it changes nothing. But once the device has
-- gone and come back, the request starts a second worker, although the first may still run.
pub generate_code_async-twice :
    (now : ℕ) (device_id name : List ℕ) (d : Device) (m : Manager) (s : CodeService)
    → no_slash device_id ≡ true
    → is_empty device_id ≡ false
    → is_empty name ≡ false
    → get_device device_id m ≡ some d
    → lookup (cache_key device_id name) s.code_cache ≡ none
    → contains_text (cache_key device_id name) s.pending_generations ≡ true
    → (generate_code_async now device_id name m s ≡ s)
      × ((generate_code_async now device_id name m (clear_cache_for_device device_id s)).workers
          ≡ (device_id, name) ∷ s.workers)
unfolding clear_cache_for_device
generate_code_async-twice now device_id name d m s plain full named there missing pending =
    let key = cache_key device_id name in
    let own : starts_with key (device_id ++ codes "/") ≡ true =
      starts_with-key device_id device_id name plain plain ∙ list_eq_refl device_id in
    (
      request-pending now device_id name d m s full named missing pending,
      request-started now device_id name d m (clear_cache_for_device device_id s) full named there
          (lookup-without_prefix (device_id ++ codes "/") key s.code_cache ∙ rw own refl)
          (contains-without_prefix (device_id ++ codes "/") key s.pending_generations own),
    )
