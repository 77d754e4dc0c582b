-- ===== src/Manager/Registry.antt =====
-- The two maps of the manager agree: an invariant of their operations.
use yubikey_oath_krunner.Prelude.{
  ℕ, ◌≡◌, sym, ◌∙◌, ap, refl, subst, false, List, none, some, arith, list_eq, inl, inr, Bool-cases,
  Option-cases,
}
use yubikey_oath_krunner.Prelude.Maps.{
  lookup, insert, list_eq_iff, lookup-erase_other, lookup-erase_self, lookup-erase-some,
  lookup-insert_self, lookup-insert_other, lookup-insert-some,
}
use yubikey_oath_krunner.Device.{Device}
use yubikey_oath_krunner.Manager.{
  Manager, without_device, disconnect_device, enter_device, signal, credentials_changed,
  device_disconnected,
}

-- A reader is in use by a device exactly if the device is there and on that reader.
pub record IsConsistent (m : Manager) : Type 0 where
  pub known :
      (r id : List ℕ)
      → lookup r m.reader_to_device ≡ some id
      → (d : Device) × (lookup id m.devices ≡ some d) × (d.reader_name ≡ r)
  pub used :
      (id : List ℕ) (d : Device)
      → lookup id m.devices ≡ some d
      → lookup d.reader_name m.reader_to_device ≡ some id

some-inj {ℓ} : {A : Type ℓ} (a b : A) → some a ≡ some b → a ≡ b
some-inj a b h = cc

-- Two texts that are not equal, by what follows if they are.
differ : (xs ys : List ℕ) → (xs ≡ ys → ⊥) → list_eq xs ys ≡ false
differ xs ys h = elim (Bool-cases (list_eq xs ys)) [
  | inl e ↦ absurd (h ((list_eq_iff xs ys).0 e))
  | inr e ↦ e
]

same_text : (xs ys : List ℕ) → list_eq xs ys ≡ false → xs ≡ ys → ⊥
same_text xs ys h e = ground (arith, h, (list_eq_iff xs ys).1 e)

module _ (id : List ℕ) (d : Device) (m : Manager) (i : IsConsistent m)
    (here : lookup id m.devices ≡ some d) where
  other_reader :
      (id' : List ℕ) (d' : Device)
      → lookup id' m.devices ≡ some d'
      → list_eq id id' ≡ false
      → list_eq d.reader_name d'.reader_name ≡ false
  other_reader id' d' there apart = differ d.reader_name d'.reader_name λ e.
      same_text id id' apart (
        some-inj id id'
          (sym (i.used id d here) ∙ ap (λ r. lookup r m.reader_to_device) e ∙ i.used id' d' there))

  other_id :
      (id' r : List ℕ) (d' : Device)
      → lookup id' m.devices ≡ some d'
      → d'.reader_name ≡ r
      → list_eq d.reader_name r ≡ false
      → list_eq id id' ≡ false
  other_id id' r d' there on apart = differ id id' λ e. same_text d.reader_name r apart (
      ap (λ (x : Device). x.reader_name)
        (some-inj d d' (sym here ∙ ap (λ k. lookup k m.devices) e ∙ there))
      ∙ on)

  without_device-IsConsistent : IsConsistent (without_device id d m)
  without_device-IsConsistent = record {
    known = λ r id' h.
        let (apart, h') = lookup-erase-some d.reader_name r id' m.reader_to_device h in
        let (d', there, on) = i.known r id' h' in
        (d', lookup-erase_other id id' m.devices (other_id id' r d' there on apart) ∙ there, on);
    used = λ id' d' h.
        let (apart, there) = lookup-erase-some id id' d' m.devices h in
        lookup-erase_other d.reader_name d'.reader_name m.reader_to_device
          (other_reader id' d' there apart)
        ∙ i.used id' d' there;
  }

pub disconnect_device_here :
    (id : List ℕ) (d : Device) (m : Manager)
    → lookup id m.devices ≡ some d
    → disconnect_device id m
      ≡ signal credentials_changed (signal (device_disconnected id) (without_device id d m))
unfolding disconnect_device
disconnect_device_here id d m e = rw (e, disconnect_device) refl

pub disconnect_device_absent :
    (id : List ℕ) (m : Manager) → lookup id m.devices ≡ none → disconnect_device id m ≡ m
unfolding disconnect_device
disconnect_device_absent id m e = rw (e, disconnect_device) refl

-- A disconnection keeps the maps in agreement.
pub disconnect_device-IsConsistent :
    (id : List ℕ) (m : Manager) → IsConsistent m → IsConsistent (disconnect_device id m)
disconnect_device-IsConsistent id m i = elim (Option-cases (lookup id m.devices)) [
  | inl e ↦ rw (disconnect_device_absent id m e) i
  | inr (d, e) ↦
      let kept : IsConsistent (without_device id d m) = without_device-IsConsistent id d m i e in
      rw (disconnect_device_here id d m e) (record { known = kept.known; used = kept.used })
]

pub disconnect_device-gone :
    (id : List ℕ) (m : Manager) → lookup id (disconnect_device id m).devices ≡ none
disconnect_device-gone id m = elim (Option-cases (lookup id m.devices)) [
  | inl e ↦ rw (disconnect_device_absent id m e) e
  | inr (d, e) ↦ rw (disconnect_device_here id d m e) (lookup-erase_self id m.devices)
]

-- A device that is entered under a new id, on a reader that is not in use, keeps them so.
pub enter_device-IsConsistent :
    (reader id : List ℕ) (d : Device) (m : Manager)
    → IsConsistent m
    → d.reader_name ≡ reader
    → lookup id m.devices ≡ none
    → lookup reader m.reader_to_device ≡ none
    → IsConsistent (enter_device reader id d m)
unfolding enter_device
enter_device-IsConsistent reader id d m i on new free = record {
  known = λ r id' h. elim (lookup-insert-some reader r id id' m.reader_to_device h) [
    | inl (e, e') ↦ (
      d,
      subst (λ k. lookup k (insert id d m.devices) ≡ some d) e' (lookup-insert_self id d m.devices),
      on ∙ e,
    )
    | inr (apart, h') ↦
        let (d', there, on') = i.known r id' h' in
        (d', lookup-insert_other id id' d m.devices (differ id id' λ e. cc) ∙ there, on')
  ];
  used = λ id' d' h. elim (lookup-insert-some id id' d d' m.devices h) [
    | inl (e, e') ↦
        ap (λ (x : Device). lookup x.reader_name (insert reader id m.reader_to_device)) (sym e')
        ∙ ap (λ r. lookup r (insert reader id m.reader_to_device)) on
        ∙ lookup-insert_self reader id m.reader_to_device
        ∙ ap some e
    | inr (apart, there) ↦
        lookup-insert_other reader d'.reader_name id m.reader_to_device (
          differ reader d'.reader_name λ e.
            let there' : lookup d'.reader_name m.reader_to_device ≡ some id' =
              i.used id' d' there in
            cc)
        ∙ i.used id' d' there
  ];
}
