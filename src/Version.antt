-- ===== src/Version.antt =====
-- src/shared/utils/version.h and version.cpp: firmware versions and their order. The three numbers
-- come from bytes, so they are not negative.
pub mod Order
use yubikey_oath_krunner.Prelude.Text.{Qt, codes}
use yubikey_oath_krunner.Prelude.{ℕ, List, ◌++◌, Bool, ltb, ◌==◌, ◌&&◌, ◌||◌, not, if◌then◌else◌}

pub record Version : Type 0 where
  pub major : ℕ
  pub minor : ℕ
  pub patch : ℕ

abbrev pub no_version : Version
no_version = record { major = 0; minor = 0; patch = 0 }

unfoldable pub is_valid : Version → Bool
is_valid v = not (v.major == 0) || (not (v.minor == 0) || not (v.patch == 0))

unfoldable pub eq : Version → Version → Bool
eq v w = v.major == w.major && (v.minor == w.minor && v.patch == w.patch)

unfoldable pub ne : Version → Version → Bool
ne v w = not (eq v w)

unfoldable pub lt : Version → Version → Bool
lt v w =
    if not (v.major == w.major)
    then ltb v.major w.major
    else if not (v.minor == w.minor)
    then ltb v.minor w.minor
    else ltb v.patch w.patch

unfoldable pub le : Version → Version → Bool
le v w = lt v w || eq v w

unfoldable pub gt : Version → Version → Bool
gt v w = not (le v w)

unfoldable pub ge : Version → Version → Bool
ge v w = not (lt v w)

unfoldable pub to_string : Qt → Version → List ℕ
to_string qt v =
    qt.number v.major ++ (codes "." ++ (qt.number v.minor ++ (codes "." ++ qt.number v.patch)))
