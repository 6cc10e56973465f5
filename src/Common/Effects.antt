-- ===== src/Common/Effects.antt =====
-- Asynchronous code that reads and writes a state and may throw, as explicit state passing. What a
-- call has written before it throws stays written.
use mathlib.Core.Bool.{Bool, true, false}
use mathlib.Core.Path.{◌≡◌, refl}
use native.Mathlib.Omega.{arith}

pub data Result {ℓ κ} (E : Type ℓ) (A : Type κ) : Type (ℓ ⊔ κ) where
  ok : A → Result E A
  err : E → Result E A

abbrev pub M : Type 0 → Type 0 → Type 0 → Type 0
M S E A = S → Result E A × S

unfoldable pub pure : {S E A : Type 0} → A → M S E A
pure a s = (ok a, s)

unfoldable pub throw : {S E A : Type 0} → E → M S E A
throw e s = (err e, s)

abbrev pub continue : {S E A B : Type 0} → Result E A × S → (A → M S E B) → Result E B × S
continue (ok a, s) f = f a s
continue (err e, s) f = (err e, s)

abbrev pub rescue : {S E A : Type 0} → Result E A × S → (E → M S E A) → Result E A × S
rescue (ok a, s) handler = (ok a, s)
rescue (err e, s) handler = handler e s

-- `try { m } catch (e) { handler(e) }`.
unfoldable pub catching : {S E A : Type 0} → M S E A → (E → M S E A) → M S E A
catching m handler s = rescue (m s) handler

infixl 5 ◌>>=◌ ◌>>◌
unfoldable pub ◌>>=◌ : {S E A B : Type 0} → M S E A → (A → M S E B) → M S E B
◌>>=◌ m f s = continue (m s) f

abbrev pub ◌>>◌ : {S E B : Type 0} → M S E (Unit {0}) → M S E B → M S E B
m >> k = m >>= λ _. k

unfoldable pub get : {S E : Type 0} → M S E S
get s = (ok s, s)

unfoldable pub modify : {S E : Type 0} → (S → S) → M S E (Unit {0})
modify f s = (ok tt, f s)

-- A chain that returns was made of calls that return.
pub bind-ok :
    {S E A B : Type 0} (m : M S E A) (f : A → M S E B) {s s' : S} {b : B}
    → (m >>= f) s ≡ (ok b, s')
    → (a : A) × (t : S) × (m s ≡ (ok a, t)) × (f a t ≡ (ok b, s'))
unfolding ◌>>=◌
bind-ok {S} {E} {A} {B} m f {s} {s'} {b} h = go (m s) refl h
  where
    go :
        (r : Result E A × S)
        → m s ≡ r
        → continue r f ≡ (ok b, s')
        → (a : A) × (t : S) × (m s ≡ (ok a, t)) × (f a t ≡ (ok b, s'))
    go (ok a, t) e h = (a, t, e, h)
    go (err x, t) e h = ground arith

pub get-bind :
    {S E B : Type 0} (f : S → M S E B) {s : S} {r : Result E B × S} → (get >>= f) s ≡ r → f s s ≡ r
unfolding ◌>>=◌ get
get-bind f h = h

pub pure-ok :
    {S E A : Type 0} (a b : A) {s s' : S} → pure {E = E} a s ≡ (ok b, s') → (b ≡ a) × (s' ≡ s)
unfolding pure
pure-ok a b h = (ground arith, ground arith)

-- A call has one result.
pub result_unique :
    {S E A : Type 0} (r : Result E A × S) {a b : A} {s t : S}
    → r ≡ (ok a, s)
    → r ≡ (ok b, t)
    → a ≡ b
result_unique (ok x, s) g h = ground arith
result_unique (err x, s) g h = ground arith

-- What holds after a call that returns, and after one that throws.
module _ {S E A : Type 0} where
  abbrev pub After : (A → S → Type 0) → (E → S → Type 0) → Result E A × S → Type 0
  After Q R (ok a, s) = Q a s
  After Q R (err e, s) = R e s

  -- From a state with `P`, `m` returns with `Q` or throws with `R`.
  pub record Triple (P : S → Type 0) (m : M S E A) (Q : A → S → Type 0) (R : E → S → Type 0)
      : Type 0 where
    pub holds : (s : S) → P s → After Q R (m s)

pub Triple-bind :
    {S E A B : Type 0} {P : S → Type 0} {m : M S E A} {Q : A → S → Type 0} {R : E → S → Type 0}
    {f : A → M S E B} {Q' : B → S → Type 0}
    → Triple P m Q R
    → ((a : A) → Triple (Q a) (f a) Q' R)
    → Triple P (m >>= f) Q' R
unfolding ◌>>=◌
Triple-bind {m} {Q} {R} {f} {Q'} t k = record { holds = λ s p. step (m s) (t.holds s p) }
  where
    step : (r : _ × _) → After Q R r → After Q' R (continue r f)
    step (ok a, s) q = (k a).holds s q
    step (err e, s) q = q

module _ {S E A : Type 0} {P : S → Type 0} {Q : A → S → Type 0} {R : E → S → Type 0} where
  pub Triple-weaken :
      {m : M S E A} {P' : S → Type 0} {Q' : A → S → Type 0} {R' : E → S → Type 0}
      → Triple P m Q R
      → ((s : S) → P' s → P s)
      → ((a : A) (s : S) → Q a s → Q' a s)
      → ((e : E) (s : S) → R e s → R' e s)
      → Triple P' m Q' R'
  Triple-weaken {m} {Q'} {R'} t pre post fail = record {
    holds = λ s p. step (m s) (t.holds s (pre s p));
  }
    where
      step : (r : Result E A × S) → After Q R r → After Q' R' r
      step (ok a, s) q = post a s q
      step (err e, s) q = fail e s q

  -- A handler starts from what holds when its error is thrown.
  pub Triple-catching :
      {m : M S E A} {h : E → M S E A} {R' : E → S → Type 0}
      → Triple P m Q R
      → ((e : E) → Triple (R e) (h e) Q R')
      → Triple P (catching m h) Q R'
  unfolding catching
  Triple-catching {m} {h} {R'} t k = record { holds = λ s p. step (m s) (t.holds s p) }
    where
      step : (r : Result E A × S) → After Q R r → After Q R' (rescue r h)
      step (ok a, s) q = q
      step (err e, s) q = (k e).holds s q

module _ {S E : Type 0} {P Q : S → Type 0} {R : E → S → Type 0} where
  pub Triple-then :
      {B : Type 0} {m : M S E (Unit {0})} {k : M S E B} {Q' : B → S → Type 0}
      → Triple P m (λ _. Q) R
      → Triple Q k Q' R
      → Triple P (m >> k) Q' R
  Triple-then t u = Triple-bind t (λ _. u)

  pub Triple-modify : (f : S → S) → ((s : S) → P s → Q (f s)) → Triple P (modify f) (λ _. Q) R
  unfolding modify
  Triple-modify f h = record { holds = λ s p. h s p }

-- `w ← get` and what follows it, from each state by itself.
pub Triple-get :
    {S E B : Type 0} {P : S → Type 0} (k : S → M S E B) {Q : B → S → Type 0} {R : E → S → Type 0}
    → ((s : S) → Triple (λ t. P t × (t ≡ s)) (k s) Q R)
    → Triple P (get >>= k) Q R
unfolding ◌>>=◌ get
Triple-get k h = record { holds = λ s p. (h s).holds s (p, refl) }

module _ {S E A : Type 0} {P : S → Type 0} {Q : A → S → Type 0} {R : E → S → Type 0} where
  pub Triple-pure : (a : A) → ((s : S) → P s → Q a s) → Triple P (pure a) Q R
  unfolding pure
  Triple-pure a h = record { holds = h }

  pub Triple-throw : (e : E) → ((s : S) → P s → R e s) → Triple P (throw e) Q R
  unfolding throw
  Triple-throw e h = record { holds = h }

-- `if (b) m else k`, and `if (b) m`.
unfoldable pub branch : {S E A : Type 0} → Bool → M S E A → M S E A → M S E A
branch true m k = m
branch false m k = k

unfoldable pub when : {S E : Type 0} → Bool → M S E (Unit {0}) → M S E (Unit {0})
unfolding pure
when true m = m
when false m = pure tt

-- A branch is entered with its test.
module _ {S E : Type 0} {P : S → Type 0} {R : E → S → Type 0} where
  pub Triple-branch :
      {A : Type 0} {Q : A → S → Type 0} (b : Bool) {m k : M S E A}
      → (b ≡ true → Triple P m Q R)
      → (b ≡ false → Triple P k Q R)
      → Triple P (branch b m k) Q R
  unfolding branch
  Triple-branch true t u = t refl
  Triple-branch false t u = u refl

  pub Triple-when :
      {Q : S → Type 0} (b : Bool) {m : M S E (Unit {0})}
      → (b ≡ true → Triple P m (λ _. Q) R)
      → (b ≡ false → (s : S) → P s → Q s)
      → Triple P (when b m) (λ _. Q) R
  unfolding when pure
  Triple-when true t u = t refl
  Triple-when false t u = record { holds = u refl }
