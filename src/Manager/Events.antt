-- ===== src/Manager/Events.antt =====
-- The events of the manager in any order, and what they mean for who is plugged in where.
use yubikey_oath_krunner.Prelude.{
  ℕ, ◌≡◌, refl, sym, ◌∙◌, ap, inl, inr, List, Option, none, some, arith, list_eq, Bool-cases,
  Option-cases, if◌then◌else◌,
}
use yubikey_oath_krunner.Prelude.Maps.{lookup, lookup-erase, lookup-insert, list_eq_iff}
use yubikey_oath_krunner.Device.{Device}
use yubikey_oath_krunner.Manager.{Manager, disconnect_device, enter_device}
use yubikey_oath_krunner.Manager.Registry.{
  IsConsistent, disconnect_device_here, disconnect_device_absent,
}

-- Who is plugged in where: the id of the device on a reader.
abbrev pub Plugged : Type 0
Plugged = List ℕ → Option (List ℕ)

abbrev pub plugged : Manager → Plugged
plugged m r = lookup r m.reader_to_device

abbrev pub kept_unless : List ℕ → Option (List ℕ) → Option (List ℕ)
kept_unless id none = none
kept_unless id (some j) = if list_eq id j then none else some j

abbrev pub unplug : List ℕ → Plugged → Plugged
unplug id p r = kept_unless id (p r)

abbrev pub plug : List ℕ → List ℕ → Plugged → Plugged
plug reader id p r = if list_eq reader r then some id else p r

module _ (id : List ℕ) (m : Manager) (i : IsConsistent m) (r : List ℕ) where
  absent_at :
      lookup id m.devices ≡ none → (o : Option (List ℕ)) → plugged m r ≡ o → o ≡ kept_unless id o
  absent_at gone none e = refl
  absent_at gone (some j) e =
      let (d, there, on) = i.known r j e in ground (arith, list_eq_iff id j, gone, there)

  here_at :
      (d : Device)
      → lookup id m.devices ≡ some d
      → (o : Option (List ℕ)) → plugged m r ≡ o
      → (if list_eq d.reader_name r then none else o) ≡ kept_unless id o
  here_at d here none e = ground arith
  here_at d here (some j) e =
      let (d', there, on) = i.known r j e in
      let used : lookup d.reader_name m.reader_to_device ≡ some id = i.used id d here in
      elim (Bool-cases (list_eq d.reader_name r)) [
        | inl same ↦
            let at : d.reader_name ≡ r = (list_eq_iff d.reader_name r).0 same in
            let met : some id ≡ some j = sym used ∙ ap (λ k. lookup k m.reader_to_device) at ∙ e in
            ground (arith, same, list_eq_iff id j, met)
        | inr apart ↦ elim (Bool-cases (list_eq id j)) [
          | inr other ↦ rw (apart, other) refl
          | inl same ↦
              let at : id ≡ j = (list_eq_iff id j).0 same in
              let met : some d ≡ some d' = sym here ∙ ap (λ k. lookup k m.devices) at ∙ there in
              absurd (ground (arith, apart, list_eq_iff d.reader_name r, met, on))
        ]
      ]

  pub disconnect_device-at : plugged (disconnect_device id m) r ≡ unplug id (plugged m) r
  disconnect_device-at = elim (Option-cases (lookup id m.devices)) [
    | inl e ↦ rw (disconnect_device_absent id m e) (absent_at e (plugged m r) refl)
    | inr (d, e) ↦
        rw (disconnect_device_here id d m e)
          (lookup-erase d.reader_name r m.reader_to_device ∙ here_at d e (plugged m r) refl)
  ]

pub enter_device-at :
    (reader id : List ℕ) (d : Device) (m : Manager) (r : List ℕ)
    → plugged (enter_device reader id d m) r ≡ plug reader id (plugged m) r
unfolding enter_device
enter_device-at reader id d m r = lookup-insert reader r id m.reader_to_device
