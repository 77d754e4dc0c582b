-- ===== src/Services/Passwords/Cleared.antt =====
-- What a refused password leaves of the one that was stored.
use yubikey_oath_krunner.Prelude.{ℕ, ◌≡◌, ◌∙◌, refl, false, List, [], some, arith}
use yubikey_oath_krunner.Prelude.Maps.{lookup, insert, lookup-insert_self}
use yubikey_oath_krunner.Credential.{OathCredential}
use yubikey_oath_krunner.Session.{Env, error, Error}
use yubikey_oath_krunner.Device.{Pcsc, SessionClass, Device, DeviceWorld}
use yubikey_oath_krunner.Device.Operations.{set_password, authenticate_with_password}
use yubikey_oath_krunner.Device.Fetch.{fetch_credentials_sync}
use yubikey_oath_krunner.Services.{SecretStorage, Texts, Service}
use yubikey_oath_krunner.Services.Passwords.{try_without, save_password}

module _ (env : Env) (pcsc : Pcsc (env.W)) (class_of : Device → SessionClass (env.W)) (t : Texts)
    (secrets : SecretStorage (env.W)) (fuel : ℕ) where
  open env use {W}

  -- Without a password, a fetch stores none.
  fetch-password :
      (class : SessionClass W) (s u : DeviceWorld W) (found : List OathCredential)
      → fetch_credentials_sync env pcsc class t.qt fuel [] s ≡ some (found, u)
      → s.device.password ≡ []
      → u.device.password ≡ []
  unfolding fetch_credentials_sync set_password
  fetch-password class s u found h e = ground (arith, h, e)

  module _ (id : List ℕ) (d : Device) where
    abbrev pub HasNoPassword : Service W → Type 0
    HasNoPassword s = (x : Device) × (lookup id s.manager.devices ≡ some x) × (x.password ≡ [])

    -- The service after a method call on the device left it in `u`.
    abbrev pub called : DeviceWorld W → Service W → Service W
    called u s = record s {
      manager = record (s.manager) { devices = insert id u.device s.manager.devices };
      world = u.world;
    }

    -- The device without a password, and the world, when the fetch without one begins.
    abbrev pub cleared : DeviceWorld W → DeviceWorld W
    cleared u = record { device = record (u.device) { password = [] }; world = u.world }

    try_without-empty :
        (s : Service W) (u v : DeviceWorld W)
        → fetch_credentials_sync env pcsc (class_of d) t.qt fuel [] (cleared u) ≡ some ([], v)
        → try_without env pcsc class_of t secrets fuel id d (called u s)
          ≡ some (false, called v (called (cleared u) (called u s)))
    unfolding try_without set_password
    try_without-empty s u v h = ground (
      arith,
      h,
      lookup-insert_self id u.device s.manager.devices,
      lookup-insert_self id (cleared u).device (called u s).manager.devices,
    )

    save_password_tries :
        (password : List ℕ) (why : Error) (s : Service W) (u : DeviceWorld W)
        → lookup id s.manager.devices ≡ some d
        → authenticate_with_password env pcsc
            (class_of d)
            t.qt
            fuel
            password
            (record { device = d; world = s.world })
          ≡ some (error why, u)
        → save_password env pcsc class_of t secrets fuel id password s
          ≡ try_without env pcsc class_of t secrets fuel id d (called u s)
    unfolding save_password
    save_password_tries password why s u there refused = ground (arith, there, refused)

    -- A password that the device refuses, where a fetch without one brings no credential, is refused and
    -- not saved: the database is as it was, and the world, which holds the stored passwords, is as the
    -- authentication and the fetch left it. But the device is left without the password that it had.
    pub save_password-refused :
        (password : List ℕ) (why : Error) (s : Service W) (u v : DeviceWorld W)
        → lookup id s.manager.devices ≡ some d
        → authenticate_with_password env pcsc
            (class_of d)
            t.qt
            fuel
            password
            (record { device = d; world = s.world })
          ≡ some (error why, u)
        → fetch_credentials_sync env pcsc (class_of d) t.qt fuel [] (cleared u) ≡ some ([], v)
        → (s' : Service W) × (save_password env pcsc class_of t secrets fuel id password s
            ≡ some (false, s'))
          × (s'.database ≡ s.database)
          × (s'.world ≡ v.world)
          × HasNoPassword s'
    save_password-refused password why s u v there refused fetched = (
      called v (called (cleared u) (called u s)),
      save_password_tries password why s u there refused ∙ try_without-empty s u v fetched,
      refl,
      refl,
      (
        v.device,
        lookup-insert_self id v.device (called (cleared u) (called u s)).manager.devices,
        fetch-password (class_of d) (cleared u) v [] fetched refl,
      ),
    )
