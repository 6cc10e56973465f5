-- ===== src/Common/Lists.antt =====
-- JavaScript's array methods on lists, and `new Set(xs)` as the list of its values in order.
use Prim.Native.Nat.{ℕ, suc, ◌+◌}
use mathlib.Core.Path.{◌≡◌, refl, sym, ap, ◌∙◌}
use mathlib.Core.Logic.{inl, inr}
use mathlib.Core.Bool.{Bool, true, false, not, ◌&&◌, ◌||◌}
use mathlib.Core.List.{map, List, [], ◌∷◌, ◌++◌}
use mathlib.Core.Option.{Option, none, some}
use native.Mathlib.Omega.{arith}
use rustdesk_console.Common.Tests.{Eq, ◌==◌, ==_iff, ==_refl, if◌then◌else◌, Bool-cases}

module _ {ℓ} {A : Type ℓ} where
  abbrev pub length : List A → ℕ
  length [] = 0
  length (x ∷ xs) = suc (length xs)

  abbrev pub filter : (A → Bool) → List A → List A
  filter p [] = []
  filter p (x ∷ xs) = if p x then x ∷ filter p xs else filter p xs

  -- `some`, `every` and `find` of an array.
  abbrev pub any : (A → Bool) → List A → Bool
  any p [] = false
  any p (x ∷ xs) = p x || any p xs

  abbrev pub all : (A → Bool) → List A → Bool
  all p [] = true
  all p (x ∷ xs) = p x && all p xs

  abbrev pub find? : (A → Bool) → List A → Option A
  find? p [] = none
  find? p (x ∷ xs) = if p x then some x else find? p xs

  pub length-append : (xs ys : List A) → length (xs ++ ys) ≡ length xs + length ys
  length-append [] ys = omega arith
  length-append (x ∷ xs) ys = omega (arith, length-append xs ys)

  pub find?-none : (p : A → Bool) (xs : List A) → find? p xs ≡ none → any p xs ≡ false
  find?-none p [] h = refl
  find?-none p (x ∷ xs) h = ground (arith, find?-none p xs)

  pub find?-some : (p : A → Bool) (xs : List A) (a : A) → find? p xs ≡ some a → p a ≡ true
  find?-some p [] a h = cc
  find?-some p (x ∷ xs) a h = ground (arith, find?-some p xs a)

  pub any-false :
      (p q : A → Bool) (xs : List A)
      → ((x : A) → p x ≡ false → q x ≡ true)
      → any p xs ≡ false
      → all q xs ≡ true
  any-false p q [] f h = refl
  any-false p q (x ∷ xs) f h = ground (arith, f x, any-false p q xs f)

  pub any-append : (p : A → Bool) (xs ys : List A) → any p (xs ++ ys) ≡ (any p xs || any p ys)
  any-append p [] ys = refl
  any-append p (x ∷ xs) ys = ground (arith, any-append p xs ys)

  pub any-filter : (p q : A → Bool) (xs : List A) → any q (filter p xs) ≡ any (λ x. p x && q x) xs
  any-filter p q [] = refl
  any-filter p q (x ∷ xs) = ground (arith, any-filter p q xs)

  -- Two tests that agree wherever `r` holds agree on a list of such values.
  pub any_congr :
      (r p q : A → Bool) (xs : List A)
      → ((x : A) → r x ≡ true → p x ≡ q x)
      → all r xs ≡ true
      → any p xs ≡ any q xs
  any_congr r p q [] h k = refl
  any_congr r p q (x ∷ xs) h k = ground (arith, h x, any_congr r p q xs h)

  pub any_ext : (p q : A → Bool) (xs : List A) → ((x : A) → p x ≡ q x) → any p xs ≡ any q xs
  any_ext p q [] h = refl
  any_ext p q (x ∷ xs) h = ground (arith, h x, any_ext p q xs h)

  pub any-and : (b : Bool) (p : A → Bool) (xs : List A) → any (λ x. b && p x) xs ≡ (b && any p xs)
  any-and b p [] = ground arith
  any-and b p (x ∷ xs) = ground (arith, any-and b p xs)

  pub any-or : (p q : A → Bool) (xs : List A) → any (λ x. p x || q x) xs ≡ (any p xs || any q xs)
  any-or p q [] = refl
  any-or p q (x ∷ xs) = ground (arith, any-or p q xs)

  pub all_weaken :
      (p q : A → Bool) (xs : List A)
      → ((x : A) → p x ≡ true → q x ≡ true)
      → all p xs ≡ true
      → all q xs ≡ true
  all_weaken p q [] h k = refl
  all_weaken p q (x ∷ xs) h k = ground (arith, h x, all_weaken p q xs h)

  pub any_weaken :
      (p q : A → Bool) (xs : List A)
      → ((x : A) → p x ≡ true → q x ≡ true)
      → any p xs ≡ true
      → any q xs ≡ true
  any_weaken p q [] f h = h
  any_weaken p q (x ∷ xs) f h = ground (arith, f x, any_weaken p q xs f)

  pub all-filter : (p : A → Bool) (xs : List A) → all p (filter p xs) ≡ true
  all-filter p [] = refl
  all-filter p (x ∷ xs) = ground (arith, all-filter p xs)

  pub all-filter_of_all :
      (p q : A → Bool) (xs : List A) → all p xs ≡ true → all p (filter q xs) ≡ true
  all-filter_of_all p q [] h = refl
  all-filter_of_all p q (x ∷ xs) h = ground (arith, all-filter_of_all p q xs)

module _ {ℓ κ} {A : Type ℓ} {B : Type κ} where
  pub any-map : (f : A → B) (q : B → Bool) (xs : List A) → any q (map f xs) ≡ any (λ x. q (f x)) xs
  any-map f q [] = refl
  any-map f q (x ∷ xs) = ground (arith, any-map f q xs)

any_never {ℓ} : {B : Type ℓ} (ys : List B) → any (λ y. false) ys ≡ false
any_never [] = refl
any_never (y ∷ ys) = any_never ys

module _ {ℓ κ} {A : Type ℓ} {B : Type κ} where
  -- Two searches may be made in either order.
  pub any_swap :
      (r : A → B → Bool) (xs : List A) (ys : List B)
      → any (λ x. any (λ y. r x y) ys) xs ≡ any (λ y. any (λ x. r x y) xs) ys
  any_swap r [] ys = sym (any_never ys)
  any_swap r (x ∷ xs) ys =
      ground (arith, any_swap r xs ys, any-or (λ y. r x y) (λ y. any (λ x'. r x' y) xs) ys)

module _ {ℓ} {A : Type ℓ} ⦃e : Eq A⦄ where
  -- `xs.includes(a)`, and `set.has(a)`.
  abbrev pub includes : List A → A → Bool
  includes [] a = false
  includes (x ∷ xs) a = (x == a) || includes xs a

  -- `[...new Set(xs)]`: each value once.
  abbrev pub unique : List A → List A
  unique [] = []
  unique (x ∷ xs) = x ∷ filter (λ y. not (x == y)) (unique xs)

  pub includes-append :
      (xs ys : List A) (a : A) → includes (xs ++ ys) a ≡ (includes xs a || includes ys a)
  includes-append [] ys a = refl
  includes-append (x ∷ xs) ys a = ground (arith, includes-append xs ys a)

  pub includes-filter :
      (p : A → Bool) (xs : List A) (a : A) → includes (filter p xs) a ≡ (p a && includes xs a)
  includes-filter p [] a = ground arith
  includes-filter p (x ∷ xs) a = elim (Bool-cases (x == a)) [
    | inl same ↦ let hit = (==_iff x a).0 same in ground (arith, includes-filter p xs a, ap p hit)
    | inr other ↦ ground (arith, includes-filter p xs a)
  ]

  pub includes-unique : (xs : List A) (a : A) → includes (unique xs) a ≡ includes xs a
  includes-unique [] a = refl
  includes-unique (x ∷ xs) a =
      ground (arith, includes-filter (λ y. not (x == y)) (unique xs) a, includes-unique xs a)

  -- A test that holds of an element holds of some element.
  pub any-includes :
      (p : A → Bool) (xs : List A) (a : A) → includes xs a ≡ true → p a ≡ true → any p xs ≡ true
  any-includes p [] a h k = cc
  any-includes p (x ∷ xs) a h k = elim (Bool-cases (x == a)) [
    | inl same ↦ let hit = ap p ((==_iff x a).0 same) in ground arith
    | inr other ↦ ground (arith, any-includes p xs a)
  ]

  pub all-includes :
      (p : A → Bool) (xs : List A) (a : A) → all p xs ≡ true → includes xs a ≡ true → p a ≡ true
  all-includes p [] a h k = cc
  all-includes p (x ∷ xs) a h k = elim (Bool-cases (x == a)) [
    | inl same ↦ let hit = (==_iff x a).0 same in ground (arith, ap p hit)
    | inr other ↦ ground (arith, all-includes p xs a)
  ]

  pub all_of_includes :
      (p : A → Bool) (xs : List A) → ((a : A) → includes xs a ≡ true → p a ≡ true) → all p xs ≡ true
  all_of_includes p [] f = refl
  all_of_includes p (x ∷ xs) f =
      ground (arith, f x, ==_refl x, all_of_includes p xs (λ a k. f a (ground arith)))

  pub includes-any : (xs : List A) (a : A) → includes xs a ≡ any (λ x. x == a) xs
  includes-any [] a = refl
  includes-any (x ∷ xs) a = ground (arith, includes-any xs a)

module _ {ℓ κ} {A : Type ℓ} {B : Type κ} ⦃e : Eq B⦄ where
  pub includes-map :
      (f : A → B) (xs : List A) (b : B) → includes (map f xs) b ≡ any (λ x. f x == b) xs
  includes-map f xs b = includes-any (map f xs) b ∙ any-map f (λ y. y == b) xs

  -- The image of each element is in the image.
  pub all-includes-map : (f : A → B) (xs : List A) → all (λ x. includes (map f xs) (f x)) xs ≡ true
  all-includes-map f [] = refl
  all-includes-map f (x ∷ xs) = ground (
    arith,
    ==_refl (f x),
    all_weaken (λ y. includes (map f xs) (f y)) (λ y. includes (map f (x ∷ xs)) (f y)) xs
        (λ y h. ground arith) (all-includes-map f xs),
  )
