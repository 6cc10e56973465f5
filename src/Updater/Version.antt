-- ===== src/Updater/Version.antt =====
-- updater/manifest.ts: stable versions, their order, and ranges of versions.
pub mod Order
pub mod Ranges
use Prim.Native.Nat.{Ordering}
use rustdesk_console.Common.{
  ℕ, ◌+◌, ◌-◌, ◌*◌, String, Bool, true, false, not, ◌&&◌, ◌||◌, Option, none, some, List, [], ◌∷◌,
  ◌==◌, nat_eq, if◌then◌else◌, ltb, all, length, map,
}
use rustdesk_console.Common.Chars.{codes, between, is_digit, is_space, split}
use rustdesk_console.Common.Effects.{Result, ok, err}
use rustdesk_console.Updater.Contracts.{UpdateError, conflict}

-- `0|[1-9]\d*`.
abbrev pub is_numeral : List ℕ → Bool
is_numeral [] = false
is_numeral (c ∷ cs) = if c == 48 then length cs == 0 else between 49 57 c && all is_digit cs

abbrev pub are_three_numerals : List (List ℕ) → Bool
are_three_numerals (a ∷ (b ∷ (c ∷ []))) = is_numeral a && (is_numeral b && is_numeral c)
are_three_numerals _ = false

-- `STABLE_VERSION.test(cs)`: three numerals with dots between them.
unfoldable pub is_stable_version : List ℕ → Bool
is_stable_version cs = are_three_numerals (split 46 cs)

-- `BigInt(digits)`, after the digits that make up `n`.
unfoldable pub number_from : ℕ → List ℕ → ℕ
number_from n [] = n
number_from n (c ∷ cs) = number_from (n * 10 + (c - 48)) cs

-- The parts are compared up to the first that differs.
unfoldable pub compare_parts : List ℕ → List ℕ → Ordering
compare_parts (a ∷ as') (b ∷ bs) =
    if a == b then compare_parts as' bs else if ltb a b then Ordering.lt else Ordering.gt
compare_parts _ _ = Ordering.eq

abbrev pub parts : List ℕ → List ℕ
parts cs = map (number_from 0) (split 46 cs)

abbrev pub unknown_version : UpdateError
unknown_version = conflict "UNKNOWN_VERSION" "Only stable semantic versions are supported."

-- On the code points of two texts: less, equal or greater for -1, 0 and 1.
unfoldable pub compare_codes : List ℕ → List ℕ → Result UpdateError Ordering
compare_codes left right =
    if is_stable_version left && is_stable_version right
    then ok (compare_parts (parts left) (parts right))
    else err unknown_version

unfoldable pub compare_versions : String → String → Result UpdateError Ordering
compare_versions left right = compare_codes (codes left) (codes right)

abbrev pub is_newer : Result UpdateError Ordering → Bool
is_newer (ok Ordering.gt) = true
is_newer _ = false

-- `>=`, `<=`, `>`, `<`, and `=`, which may be left out.
pub data Comparator : Type 0 where
  at_least at_most above below exactly : Comparator

-- The groups of the expression that a term is matched with.
abbrev pub after_sign : Comparator → Comparator → List ℕ → Comparator × List ℕ
after_sign wide strict [] = (strict, [])
after_sign wide strict (c ∷ cs) = if c == 61 then (wide, cs) else (strict, c ∷ cs)

abbrev pub operator_of : List ℕ → Comparator × List ℕ
operator_of [] = (exactly, [])
operator_of (c ∷ cs) =
    if c == 62
    then after_sign at_least above cs
    else if c == 60
    then after_sign at_most below cs
    else if c == 61
    then (exactly, cs)
    else (exactly, c ∷ cs)

abbrev pub accepts : Comparator → Ordering → Bool
accepts at_least Ordering.lt = false
accepts at_least _ = true
accepts at_most Ordering.gt = false
accepts at_most _ = true
accepts above Ordering.gt = true
accepts above _ = false
accepts below Ordering.lt = true
accepts below _ = false
accepts exactly Ordering.eq = true
accepts exactly _ = false

abbrev pub is_term : List ℕ → Bool
is_term term = is_stable_version (operator_of term).1

abbrev pub accepted_by : Comparator → Result UpdateError Ordering → Result UpdateError Bool
accepted_by op (ok o) = ok (accepts op o)
accepted_by op (err e) = err e

unfoldable pub satisfies_term : List ℕ → List ℕ → Result UpdateError Bool
satisfies_term version term =
    if is_term term
    then accepted_by (operator_of term).0 (compare_codes version (operator_of term).1)
    else ok false

-- `every`, which stops at the first term that is not satisfied.
abbrev pub and_then : Result UpdateError Bool → Result UpdateError Bool → Result UpdateError Bool
and_then (ok true) rest = rest
and_then (ok false) rest = ok false
and_then (err e) rest = err e

unfoldable pub satisfies_all : List ℕ → List (List ℕ) → Result UpdateError Bool
satisfies_all version [] = ok true
satisfies_all version (t ∷ ts) = and_then (satisfies_term version t) (satisfies_all version ts)

-- `range.trim().split(/\s+/)`: the words of the range, or one empty word.
abbrev pub add_code : Bool → ℕ → List (List ℕ) → List (List ℕ)
add_code starts c [] = (c ∷ []) ∷ []
add_code true c (w ∷ ws) = (c ∷ []) ∷ (w ∷ ws)
add_code false c (w ∷ ws) = (c ∷ w) ∷ ws

abbrev pub starts_blank : List ℕ → Bool
starts_blank [] = true
starts_blank (c ∷ cs) = is_space c

unfoldable pub words : List ℕ → List (List ℕ)
words [] = []
words (c ∷ cs) =
    let rest = words cs in if is_space c then rest else add_code (starts_blank cs) c rest

abbrev pub or_blank : List (List ℕ) → List (List ℕ)
or_blank [] = [] ∷ []
or_blank (w ∷ ws) = w ∷ ws

unfoldable pub terms : String → List (List ℕ)
terms range = or_blank (words (codes range))

unfoldable pub satisfies : String → String → Result UpdateError Bool
satisfies version range = satisfies_all (codes version) (terms range)
