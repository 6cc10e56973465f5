-- ===== src/Updater/Version/Order.antt =====
-- The order of stable versions: it decides equality, it reverses with its arguments, and it is
-- transitive.
use Prim.Native.Nat.{Ordering}
use rustdesk_console.Common.{
  false, ℕ, suc, ◌+◌, ◌-◌, ◌*◌, ◌≤◌, ◌<◌, String, ◌≡◌, refl, sym, ap, ◌∙◌, ◌⊎◌, inl, inr, true,
  List, [], ◌∷◌, map, all, length, arith, nat_eq,
}
use rustdesk_console.Common.Chars.{codes, is_digit, split, join, join-split, codes-injective}
use rustdesk_console.Common.Effects.{Result, ok, err}
use rustdesk_console.Updater.Contracts.{UpdateError}
use rustdesk_console.Updater.Version.{
  is_newer, is_numeral, are_three_numerals, is_stable_version, number_from, compare_parts, parts,
  compare_codes, compare_versions,
}

-- A larger number stays larger when as many digits follow it, or more.
number_from-lt :
    (n m : ℕ) (cs ds : List ℕ)
    → all is_digit cs ≡ true
    → all is_digit ds ≡ true
    → n < m
    → length cs ≤ length ds
    → number_from n cs < number_from m ds
unfolding number_from
number_from-lt n m [] [] p q h k = h
number_from-lt n m [] (d ∷ ds) p q h k =
    number_from-lt n (m * 10 + (d - 48)) [] ds p (ground arith) (ground arith) (omega arith)
number_from-lt n m (c ∷ cs) [] p q h k = absurd (omega arith)
number_from-lt n m (c ∷ cs) (d ∷ ds) p q h k =
    number_from-lt (n * 10 + (c - 48)) (m * 10 + (d - 48)) cs ds (ground arith) (ground arith)
      (ground arith) (omega arith)

-- Equal numbers of equally many digits have the same digits.
number_from-injective :
    (n m : ℕ) (cs ds : List ℕ)
    → all is_digit cs ≡ true
    → all is_digit ds ≡ true
    → length cs ≡ length ds
    → number_from n cs ≡ number_from m ds
    → (n ≡ m) × (cs ≡ ds)
unfolding number_from
number_from-injective n m [] [] p q l h = (h, refl)
number_from-injective n m [] (d ∷ ds) p q l h = absurd (omega arith)
number_from-injective n m (c ∷ cs) [] p q l h = absurd (omega arith)
number_from-injective n m (c ∷ cs) (d ∷ ds) p q l h =
    let (heads, tails) =
      number_from-injective (n * 10 + (c - 48)) (m * 10 + (d - 48)) cs ds (ground arith)
        (ground arith) (omega arith) h in
    let same : n ≡ m = ground arith in let digit : c ≡ d = ground arith in (same, cc (digit, tails))

-- A shorter numeral is a smaller number.
numeral-shorter :
    (c d : ℕ) (cs ds : List ℕ)
    → is_numeral (c ∷ cs) ≡ true
    → is_numeral (d ∷ ds) ≡ true
    → length cs < length ds
    → number_from 0 (c ∷ cs) < number_from 0 (d ∷ ds)
unfolding number_from
numeral-shorter c d cs [] p q h = absurd (omega arith)
numeral-shorter c d cs (e ∷ ds) p q h =
    number_from-lt (0 * 10 + (c - 48)) ((0 * 10 + (d - 48)) * 10 + (e - 48)) cs ds (digits c cs p)
      (ground arith) (ground arith) (omega arith)
  where
    digits : (c : ℕ) (cs : List ℕ) → is_numeral (c ∷ cs) ≡ true → all is_digit cs ≡ true
    digits c [] h = refl
    digits c (b ∷ cs) h = ground arith

lt→≢ : (n m : ℕ) → n < m → n ≡ m → ⊥
lt→≢ n m h e = omega arith

-- A number has one numeral.
numeral-injective :
    (cs ds : List ℕ)
    → is_numeral cs ≡ true
    → is_numeral ds ≡ true
    → number_from 0 cs ≡ number_from 0 ds
    → cs ≡ ds
numeral-injective [] ds p q h = cc
numeral-injective (c ∷ cs) [] p q h = cc
numeral-injective (c ∷ cs) (d ∷ ds) p q h = elim (le_or_lt (length cs) (length ds)) [
  | inl (inl shorter) ↦ absurd (lt→≢ _ _ (numeral-shorter c d cs ds p q shorter) h)
  | inl (inr equal) ↦
      (number_from-injective 0 0 (c ∷ cs) (d ∷ ds) (numeral-digits c cs p) (numeral-digits d ds q)
        (ap suc equal) h).1
  | inr longer ↦ absurd (lt→≢ _ _ (numeral-shorter d c ds cs q p longer) (sym h))
]
  where
    le_or_lt : (n m : ℕ) → ((n < m) ⊎ (n ≡ m)) ⊎ (m < n)
    le_or_lt n m = omega arith

    numeral-digits :
        (c : ℕ) (cs : List ℕ) → is_numeral (c ∷ cs) ≡ true → all is_digit (c ∷ cs) ≡ true
    numeral-digits c [] h = ground arith
    numeral-digits c (b ∷ cs) h = ground arith

compare_parts-eq :
    (as' bs : List ℕ) → length as' ≡ length bs → compare_parts as' bs ≡ Ordering.eq → as' ≡ bs
unfolding compare_parts
compare_parts-eq [] [] l h = refl
compare_parts-eq [] (b ∷ bs) l h = absurd (omega arith)
compare_parts-eq (a ∷ as') [] l h = absurd (omega arith)
compare_parts-eq (a ∷ as') (b ∷ bs) l h = ground (arith, compare_parts-eq as' bs)

abbrev pub reverse : Ordering → Ordering
reverse Ordering.lt = Ordering.gt
reverse Ordering.eq = Ordering.eq
reverse Ordering.gt = Ordering.lt

compare_parts-reverse : (as' bs : List ℕ) → compare_parts bs as' ≡ reverse (compare_parts as' bs)
unfolding compare_parts
compare_parts-reverse [] [] = refl
compare_parts-reverse [] (b ∷ bs) = refl
compare_parts-reverse (a ∷ as') [] = refl
compare_parts-reverse (a ∷ as') (b ∷ bs) = ground (arith, compare_parts-reverse as' bs)

compare_parts_trans :
    (as' bs cs : List ℕ)
    → compare_parts as' bs ≡ Ordering.lt
    → compare_parts bs cs ≡ Ordering.lt
    → compare_parts as' cs ≡ Ordering.lt
unfolding compare_parts
compare_parts_trans [] bs cs h k = cc
compare_parts_trans (a ∷ as') [] cs h k = cc
compare_parts_trans (a ∷ as') (b ∷ bs) [] h k = cc
compare_parts_trans (a ∷ as') (b ∷ bs) (c ∷ cs) h k = ground (arith, compare_parts_trans as' bs cs)

-- Three numerals are determined by their numbers.
numerals-injective :
    (ps qs : List (List ℕ))
    → are_three_numerals ps ≡ true
    → are_three_numerals qs ≡ true
    → compare_parts (map (number_from 0) ps) (map (number_from 0) qs) ≡ Ordering.eq
    → ps ≡ qs
numerals-injective (a ∷ (b ∷ (c ∷ []))) (d ∷ (e ∷ (f ∷ []))) p q h =
    let same =
      compare_parts-eq (map (number_from 0) (a ∷ (b ∷ (c ∷ []))))
        (map (number_from 0) (d ∷ (e ∷ (f ∷ [])))) refl h in
    let first = numeral-injective a d (ground arith) (ground arith) (cc same) in
    let second = numeral-injective b e (ground arith) (ground arith) (cc same) in
    let third = numeral-injective c f (ground arith) (ground arith) (cc same) in
    cc (first, second, third)
numerals-injective _ _ p q h = cc

-- Two versions compare as equal only if they are the same text.
pub compare_versions-eq :
    (left right : String) → compare_versions left right ≡ ok Ordering.eq → left ≡ right
unfolding compare_versions compare_codes is_stable_version
compare_versions-eq left right h = codes-injective left right (
    sym (join-split 46 (codes left))
    ∙ ap (join 46) (
        numerals-injective (split 46 (codes left)) (split 46 (codes right)) (ground arith)
          (ground arith) (ground arith))
    ∙ join-split 46 (codes right))

abbrev pub reversed : Result UpdateError Ordering → Result UpdateError Ordering
reversed (ok o) = ok (reverse o)
reversed (err e) = err e

-- With its arguments in the other order, a comparison gives the reverse order, or the same error.
pub compare_versions-reversed :
    (left right : String) → compare_versions right left ≡ reversed (compare_versions left right)
unfolding compare_versions compare_codes
compare_versions-reversed left right =
    ground (arith, compare_parts-reverse (parts (codes left)) (parts (codes right)))

-- A version that is older than one that is older than a third is older than the third.
pub compare_versions_trans :
    (a b c : String)
    → compare_versions a b ≡ ok Ordering.lt
    → compare_versions b c ≡ ok Ordering.lt
    → compare_versions a c ≡ ok Ordering.lt
unfolding compare_versions compare_codes
compare_versions_trans a b c h k =
    ground (arith, compare_parts_trans (parts (codes a)) (parts (codes b)) (parts (codes c)))

-- No version is newer than itself.
pub compare_versions_irrefl : (v : String) → is_newer (compare_versions v v) ≡ false
compare_versions_irrefl v = no_fixed (compare_versions v v) (compare_versions-reversed v v)
  where
    no_fixed : (r : Result UpdateError Ordering) → r ≡ reversed r → is_newer r ≡ false
    no_fixed (ok Ordering.lt) h = refl
    no_fixed (ok Ordering.eq) h = refl
    no_fixed (ok Ordering.gt) h = cc
    no_fixed (err e) h = refl

-- An order of texts by a comparison that may throw.
pub record IsOrder (compare : String → String → Result UpdateError Ordering) : Type 0 where
  pub separates : (left right : String) → compare left right ≡ ok Ordering.eq → left ≡ right
  pub reverses : (left right : String) → compare right left ≡ reversed (compare left right)
  pub transitive :
      (a b c : String)
      → compare a b ≡ ok Ordering.lt
      → compare b c ≡ ok Ordering.lt
      → compare a c ≡ ok Ordering.lt

-- The comparison of versions orders them: two compare as equal only if they are the same text, the
-- arguments in the other order give the reverse or the same error, and a version that is older than
-- one that is older than a third is older than the third.
pub compare_versions-IsOrder : IsOrder compare_versions
compare_versions-IsOrder = record {
  separates = compare_versions-eq;
  reverses = compare_versions-reversed;
  transitive = compare_versions_trans;
}
