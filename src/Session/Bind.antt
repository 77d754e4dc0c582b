-- ===== src/Session/Bind.antt =====
-- Laws of the session's monad: what the parts of a chain did that returned.
use yubikey_oath_krunner.Prelude.{
  ◌≡◌, refl, ◌≢◌, ℕ, List, [], ◌∷◌, Bool, true, false, if◌then◌else◌, is_empty, Option, none, some,
  arith,
}
use yubikey_oath_krunner.Session.{State, M, pure, ◌>>=◌, Error, Result, success, error}

-- What a chain of operations returned, its second part returned.
from_some :
    {W A B : Type 0} (o : Option (A × State W)) (f : A → M W B) (t : State W) (b : B)
    → elim o [ none ↦ none | some (a, u) ↦ f a u ] ≡ some (b, t)
    → (a : A) × (u : State W) × (o ≡ some (a, u)) × (f a u ≡ some (b, t))
from_some none f t b h = cc
from_some (some (a, u)) f t b h = (a, u, refl, h)

pub bind-inv :
    {W A B : Type 0} (m : M W A) (f : A → M W B) (s t : State W) (b : B)
    → (m >>= f) s ≡ some (b, t)
    → (a : A) × (u : State W) × (m s ≡ some (a, u)) × (f a u ≡ some (b, t))
bind-inv m f s t b h = from_some (m s) f t b h

pub bind-some :
    {W A B : Type 0} (m : M W A) (f : A → M W B) (s u : State W) (a : A)
    → m s ≡ some (a, u)
    → (m >>= f) s ≡ f a u
bind-some m f s u a e = ground (arith, e)

-- A step behind a result succeeded, so the result was no error.
pub after_error :
    {W A B : Type 0} (r : Result A) (f : Error → Error) (k : A → M W (Result B)) (u t : State W)
    (b : B)
    → (elim r as (λ x. M W (Result B)) [ error e ↦ pure (error (f e)) | success a ↦ k a ]) u
      ≡ some (success b, t)
    → (a : A) × (r ≡ success a) × (k a u ≡ some (success b, t))
after_error (error e) f k u t b h = absurd cc
after_error (success a) f k u t b h = (a, refl, h)

-- A step behind a test for an empty text succeeded, so the text was not empty.
pub after_empty :
    {W B : Type 0} (text : List ℕ) (e : Error) (k : M W (Result B)) (u t : State W) (b : B)
    → (if is_empty text then pure (error e) else k) u ≡ some (success b, t)
    → (text ≢ []) × (k u ≡ some (success b, t))
after_empty [] e k u t b h = absurd cc
after_empty (c ∷ cs) e k u t b h = ((λ no_text. cc), h)

-- A step behind a test succeeded, so the test failed.
pub after_test :
    {W B : Type 0} (test : Bool) (e : Error) (k : M W (Result B)) (u t : State W) (b : B)
    → (if test then pure (error e) else k) u ≡ some (success b, t)
    → (test ≡ false) × (k u ≡ some (success b, t))
after_test true e k u t b h = absurd cc
after_test false e k u t b h = (refl, h)

pub pure-inv : {W A : Type 0} (a b : A) (u t : State W) → pure a u ≡ some (b, t) → (u ≡ t) × (a ≡ b)
pure-inv a b u t h = (cc, cc)
