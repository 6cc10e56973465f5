-- ===== src/Common/Results.antt =====
-- Calls that return or throw and change nothing, in do blocks.
use mathlib.Core.Path.{◌≡◌, refl}
use rustdesk_console.Common.Effects.{Result, ok, err}

module _ {E A B : Type 0} where
  infixl 5 ◌>>=◌
  unfoldable pub ◌>>=◌ : Result E A → (A → Result E B) → Result E B
  ok a >>= f = f a
  err e >>= f = err e

  -- A chain that returns was made of calls that return.
  pub bind-ok :
      {r : Result E A} {f : A → Result E B} {b : B}
      → (r >>= f) ≡ ok b
      → (a : A) × (r ≡ ok a) × (f a ≡ ok b)
  unfolding ◌>>=◌
  bind-ok {r = ok a} h = (a, refl, h)
  bind-ok {r = err e} h = cc

infixl 5 ◌>>◌
abbrev pub ◌>>◌ : {E B : Type 0} → Result E (Unit {0}) → Result E B → Result E B
m >> k = m >>= λ _. k
