-- ===== src/Prelude/Text.antt =====
-- Texts as lists of code units, and what the program takes from Qt's text classes.
use Prim.Native.Nat.{ℕ}
use Prim.Native.Char.{code}
use Prim.Native.String.{String}
use mathlib.Core.Bool.{Bool, true, false, ◌||◌}
use mathlib.Core.List.{List, [], ◌∷◌}
use yubikey_oath_krunner.Prelude.Tests.{◌==◌, if◌then◌else◌}

-- The code units of an ASCII literal.
abbrev pub codes : String → List ℕ
codes String.[] = []
codes (String.◌∷◌ c s) = code c ∷ codes s

-- Qt's conversions, which are not part of the repository: `QString::toUtf8`, `QString::fromUtf8`,
-- `QString::toUpper`, `QChar::toUpper`, `QString::number` of an unsigned number and
-- `QByteArray::toHex`.
pub record Qt : Type 0 where
  pub to_utf8 : List ℕ → List ℕ
  pub from_utf8 : List ℕ → List ℕ
  pub to_upper : List ℕ → List ℕ
  pub char_to_upper : ℕ → ℕ
  pub number : ℕ → List ℕ
  pub to_hex : List ℕ → List ℕ

-- `QString::startsWith` and `QString::contains`, which regard case.
unfoldable pub starts_with : List ℕ → List ℕ → Bool
starts_with text [] = true
starts_with [] (k ∷ ks) = false
starts_with (c ∷ cs) (k ∷ ks) = if c == k then starts_with cs ks else false

unfoldable pub holds_text : List ℕ → List ℕ → Bool
unfolding starts_with
holds_text [] key = starts_with [] key
holds_text (c ∷ cs) key = starts_with (c ∷ cs) key || holds_text cs key
