-- ===== src/Version/Order.antt =====
-- The six comparisons are those of one total order.
use yubikey_oath_krunner.Prelude.{◌≡◌, ◌↔◌, ◌⊎◌, true, false, arith, ◌<◌}
use yubikey_oath_krunner.Version.{Version, eq, lt, le, gt}

-- The lexicographic order of the three numbers.
abbrev pub Below : Version → Version → Type 0
Below v w =
    (v.major < w.major)
    ⊎ ((v.major ≡ w.major) × ((v.minor < w.minor) ⊎ ((v.minor ≡ w.minor) × (v.patch < w.patch))))

-- `<` decides the lexicographic order of major, minor and patch.
pub lt-Below : (v w : Version) → (lt v w ≡ true) ↔ Below v w
unfolding lt
lt-Below v w = (λ h. ground arith, λ h. ground arith)

-- `==` decides equality.
pub eq_iff : (v w : Version) → (eq v w ≡ true) ↔ (v ≡ w)
unfolding eq
eq_iff v w = (λ h. ground arith, λ h. ground arith)

-- Of `<`, `==` and `>` exactly one holds, and the other three operators are their negations.
pub trichotomy :
    (v w : Version)
    → ((lt v w ≡ true) × (eq v w ≡ false) × (gt v w ≡ false))
      ⊎ (((lt v w ≡ false) × (eq v w ≡ true) × (gt v w ≡ false))
          ⊎ ((lt v w ≡ false) × (eq v w ≡ false) × (gt v w ≡ true)))
unfolding lt eq gt le
trichotomy v w = ground arith

pub gt-lt : (v w : Version) → gt v w ≡ lt w v
unfolding lt eq gt le
gt-lt v w = ground arith

pub lt_trans : (u v w : Version) → lt u v ≡ true → lt v w ≡ true → lt u w ≡ true
unfolding lt
lt_trans u v w h k = ground arith
