-- ===== src/Updater/Version/Ranges.antt =====
-- Ranges of versions, on a version that is stable, against a description of what each word asks for.
use Prim.Native.Nat.{Ordering}
use rustdesk_console.Common.{
  ℕ, ◌+◌, ◌*◌, ◌-◌, String, ◌≡◌, refl, ap, ◌∙◌, Bool, true, false, not, ◌&&◌, ◌||◌, Option, none,
  some, List, [], ◌∷◌, map, ◌==◌, nat_eq, ltb, if◌then◌else◌, all, arith, Bool-cases, inl, inr,
}
use rustdesk_console.Common.Chars.{codes, split, glue, is_digit}
use rustdesk_console.Common.Effects.{Result, ok}
use rustdesk_console.Updater.Contracts.{UpdateError}
use rustdesk_console.Updater.Version.{
  is_stable_version, is_numeral, are_three_numerals, number_from, compare_parts, parts,
  compare_codes, Comparator, at_least, at_most, above, below, exactly, operator_of, accepts,
  satisfies_term, satisfies_all, and_then, terms, satisfies,
}

-- The numbers of a version: its texts between dots, each digit with the weight of its place.
abbrev pub weight : List ℕ → ℕ
weight [] = 1
weight (c ∷ cs) = 10 * weight cs

abbrev pub value : List ℕ → ℕ
value [] = 0
value (c ∷ cs) = (c - 48) * weight cs + value cs

abbrev pub numbers : List ℕ → List ℕ
numbers version = map value (split 46 version)

-- The order of versions: by the first number that differs.
abbrev pub less : List ℕ → List ℕ → Bool
less (a ∷ as') (b ∷ bs) = ltb a b || ((a == b) && less as' bs)
less _ _ = false

-- What is left of a text after a prefix.
abbrev pub after : List ℕ → List ℕ → Option (List ℕ)
after [] cs = some cs
after (p ∷ ps) [] = none
after (p ∷ ps) (c ∷ cs) = if c == p then after ps cs else none

abbrev pub holds_of : (List ℕ → Bool) → Option (List ℕ) → Bool
holds_of test none = false
holds_of test (some w) = is_stable_version w && test (numbers w)

-- The word is the sign and a version that passes the test.
abbrev pub says : String → (List ℕ → Bool) → List ℕ → Bool
says sign test word = holds_of test (after (codes sign) word)

-- The version is one that the word asks for.
abbrev pub meets : List ℕ → List ℕ → Bool
meets version word =
    let v = numbers version in
    says ">=" (λ w. not (less v w)) word
    || (says "<=" (λ w. not (less w v)) word
        || (says ">" (λ w. less w v) word
            || (says "<" (λ w. less v w) word
                || (says "=" (λ w. not (less v w) && not (less w v)) word
                    || says "" (λ w. not (less v w) && not (less w v)) word))))

value-number_from : (n : ℕ) (cs : List ℕ) → number_from n cs ≡ n * weight cs + value cs
unfolding number_from
value-number_from n [] = omega arith
value-number_from n (c ∷ cs) =
    value-number_from (n * 10 + (c - 48)) cs ∙ shifted n (c - 48) (weight cs) (value cs)
  where
    shifted : (n d k v : ℕ) → (n * 10 + d) * k + v ≡ n * (10 * k) + (d * k + v)
    shifted n d k v = omega arith

number_from-value : (p : List ℕ) → number_from 0 p ≡ value p
number_from-value p = value-number_from 0 p ∙ without_zero (weight p) (value p)
  where
    without_zero : (k v : ℕ) → 0 * k + v ≡ v
    without_zero k v = omega arith

map-value : (ps : List (List ℕ)) → map (number_from 0) ps ≡ map value ps
map-value [] = refl
map-value (p ∷ ps) =
    ap (λ n. n ∷ map (number_from 0) ps) (number_from-value p)
    ∙ ap (λ l. value p ∷ l) (map-value ps)

parts-numbers : (version : List ℕ) → parts version ≡ numbers version
parts-numbers version = map-value (split 46 version)

abbrev is_lt : Ordering → Bool
is_lt Ordering.lt = true
is_lt _ = false

abbrev is_gt : Ordering → Bool
is_gt Ordering.gt = true
is_gt _ = false

-- The comparison finds the lesser of two versions.
compare_parts-less :
    (xs ys : List ℕ)
    → (is_lt (compare_parts xs ys) ≡ less xs ys) × (is_gt (compare_parts xs ys) ≡ less ys xs)
unfolding compare_parts
compare_parts-less [] [] = (refl, refl)
compare_parts-less [] (y ∷ ys) = (refl, refl)
compare_parts-less (x ∷ xs) [] = (refl, refl)
compare_parts-less (x ∷ xs) (y ∷ ys) =
    let (l, g) = compare_parts-less xs ys in (ground (arith, l, g), ground (arith, l, g))

accepts-ordered :
    (o : Ordering)
    → (accepts at_least o ≡ not (is_lt o))
      × (accepts at_most o ≡ not (is_gt o))
      × (accepts above o ≡ is_gt o)
      × (accepts below o ≡ is_lt o)
      × (accepts exactly o ≡ (not (is_lt o) && not (is_gt o)))
accepts-ordered Ordering.lt = (refl, refl, refl, refl, refl)
accepts-ordered Ordering.eq = (refl, refl, refl, refl, refl)
accepts-ordered Ordering.gt = (refl, refl, refl, refl, refl)

first_numeral :
    (p : List ℕ) (ps : List (List ℕ)) → is_numeral p ≡ false → are_three_numerals (p ∷ ps) ≡ false
first_numeral p [] h = refl
first_numeral p (q ∷ []) h = refl
first_numeral p (q ∷ (r ∷ [])) h = ground arith
first_numeral p (q ∷ (r ∷ (t ∷ ts))) h = refl

-- A version begins with a digit.
starts_with_digit : (c : ℕ) (cs : List ℕ) → is_digit c ≡ false → is_stable_version (c ∷ cs) ≡ false
unfolding is_stable_version split
starts_with_digit c cs h = glued (split 46 cs)
  where
    no_numeral : (ds : List ℕ) → is_numeral (c ∷ ds) ≡ false
    no_numeral ds = ground arith

    glued : (ps : List (List ℕ)) → are_three_numerals (glue 46 c ps) ≡ false
    glued [] = refl
    glued (p ∷ ps) = elim (Bool-cases (c == 46)) [
      | inl dot ↦ rw dot (first_numeral [] (p ∷ ps) refl)
      | inr other ↦ rw other (first_numeral (c ∷ p) ps (no_numeral p))
    ]

no_version : is_stable_version [] ≡ false
unfolding is_stable_version split
no_version = refl

and_then-ok :
    (x y : Result UpdateError Bool) (b c : Bool) → x ≡ ok b → y ≡ ok c → and_then x y ≡ ok (b && c)
and_then-ok x y true c e f = rw (e, f) refl
and_then-ok x y false c e f = rw e refl

module _ (version : List ℕ) where
  abbrev passes : Comparator → List ℕ → Bool
  passes op w = is_stable_version w && accepts op (compare_parts (numbers version) (numbers w))

  passes-holds_of :
      (w : List ℕ)
      → let v = numbers version in
        (passes at_least w ≡ holds_of (λ w. not (less v w)) (some w))
        × (passes at_most w ≡ holds_of (λ w. not (less w v)) (some w))
        × (passes above w ≡ holds_of (λ w. less w v) (some w))
        × (passes below w ≡ holds_of (λ w. less v w) (some w))
        × (passes exactly w ≡ holds_of (λ w. not (less v w) && not (less w v)) (some w))
  passes-holds_of w =
      let (l, g) = compare_parts-less (numbers version) (numbers w) in
      let (a, b, c, d, e) = accepts-ordered (compare_parts (numbers version) (numbers w)) in
      (
        ground (arith, l, a),
        ground (arith, g, b),
        ground (arith, g, c),
        ground (arith, l, d),
        ground (arith, l, g, e),
      )

  passes-meets :
      (word : List ℕ) → passes (operator_of word).0 (operator_of word).1 ≡ meets version word
  passes-meets [] = ground (arith, no_version)
  passes-meets (c ∷ []) =
      let (a, b, e, d, f) = passes-holds_of [] in
      let (_, _, _, _, g) = passes-holds_of (c ∷ []) in
      ground (arith, e, d, f, g, starts_with_digit c [])
  passes-meets (c ∷ (d ∷ ds)) =
      let (a, b, _, _, _) = passes-holds_of ds in
      let (_, _, e, f, g) = passes-holds_of (d ∷ ds) in
      let (_, _, _, _, h) = passes-holds_of (c ∷ (d ∷ ds)) in
      ground (arith, a, b, e, f, g, h, starts_with_digit c (d ∷ ds), starts_with_digit d ds)

  satisfies_term-meets :
      (term : List ℕ)
      → is_stable_version version ≡ true
      → satisfies_term version term ≡ ok (meets version term)
  unfolding satisfies_term compare_codes
  satisfies_term-meets term h =
      let w = (operator_of term).1 in
      ground (arith, passes-meets term, parts-numbers version, parts-numbers w)

  satisfies_all-meets :
      (ts : List (List ℕ))
      → is_stable_version version ≡ true
      → satisfies_all version ts ≡ ok (all (meets version) ts)
  unfolding satisfies_all
  satisfies_all-meets [] h = refl
  satisfies_all-meets (t ∷ ts) h =
      and_then-ok _ _ (meets version t) (all (meets version) ts) (satisfies_term-meets t h)
        (satisfies_all-meets ts h)

-- On a stable version the test of a range never throws, and accepts the version exactly when every
-- word of the range asks for it: a word is a stable version behind one of the signs `>=`, `<=`, `>`,
-- `<` and `=` or behind none, and the version must be at least it, at most it, above it, below it or
-- equal to it, by the first of their numbers that differs.
pub satisfies-meets :
    (version range : String)
    → is_stable_version (codes version) ≡ true
    → satisfies version range ≡ ok (all (meets (codes version)) (terms range))
unfolding satisfies
satisfies-meets version range h = satisfies_all-meets (codes version) (terms range) h
