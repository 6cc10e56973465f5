-- ===== src/Common/Chars.antt =====
-- Texts as the list of their code points, for the code that reads them one by one: the tests of
-- regular expressions, `split` and `trim`.
use Prim.Native.Nat.{◌+◌, ℕ}
use Prim.Native.Char.{code}
use Prim.Native.String.{String}
use mathlib.Core.Path.{◌≡◌, refl, ap, sym, ◌∙◌}
use mathlib.Core.Logic.{inl, inr}
use mathlib.Core.Bool.{Bool, ◌&&◌, ◌||◌}
use mathlib.Core.List.{List, [], ◌∷◌, ◌++◌}
use text.Mathlib.TextEquality.{Char-path}
use rustdesk_console.Common.Tests.{leb, if◌then◌else◌, ◌==◌, nat_eq, ==_iff, Bool-cases}
use rustdesk_console.Common.Lists.{any}

abbrev pub codes : String → List ℕ
codes String.[] = []
codes (String.◌∷◌ c s) = code c ∷ codes s

-- `/[lo-hi]/`.
abbrev pub between : ℕ → ℕ → ℕ → Bool
between lo hi c = leb lo c && leb c hi

abbrev pub is_digit : ℕ → Bool
is_digit = between 48 57

-- `/[a-f0-9]/`.
abbrev pub is_hex : ℕ → Bool
is_hex c = is_digit c || between 97 102 c

abbrev pub is_alphanumeric : ℕ → Bool
is_alphanumeric c = is_digit c || (between 65 90 c || between 97 122 c)

-- `/\s/`, which is also what `trim` removes.
abbrev pub is_space : ℕ → Bool
is_space c =
    between 9 13 c
    || any (λ x. x == c) (32 ∷ 160 ∷ 5760 ∷ 8232 ∷ 8233 ∷ 8239 ∷ 8287 ∷ 12288 ∷ 65279 ∷ [])
    || between 8192 8202 c

-- `s.split(sep)` for a separator of one character. The first piece, and the others.
abbrev pub glue : ℕ → ℕ → List (List ℕ) → List (List ℕ)
glue sep c [] = (c ∷ []) ∷ []
glue sep c (p ∷ ps) = if c == sep then [] ∷ (p ∷ ps) else (c ∷ p) ∷ ps

unfoldable pub split : ℕ → List ℕ → List (List ℕ)
split sep [] = [] ∷ []
split sep (c ∷ cs) = glue sep c (split sep cs)

-- `parts.join(sep)`.
unfoldable pub join : ℕ → List (List ℕ) → List ℕ
join sep [] = []
join sep (p ∷ []) = p
join sep (p ∷ (q ∷ qs)) = p ++ (sep ∷ join sep (q ∷ qs))

-- The pieces make up the text.
join-glue : (sep c : ℕ) (ps : List (List ℕ)) → join sep (glue sep c ps) ≡ c ∷ join sep ps
unfolding join
join-glue sep c [] = refl
join-glue sep c (p ∷ ps) = elim (Bool-cases (c == sep)) [
  | inl at_sep ↦
      let same = (==_iff c sep).0 at_sep in rw at_sep (ap (λ x. x ∷ join sep (p ∷ ps)) (sym same))
  | inr inside ↦ rw inside (grown ps)
]
  where
    grown : (qs : List (List ℕ)) → join sep ((c ∷ p) ∷ qs) ≡ c ∷ join sep (p ∷ qs)
    grown [] = refl
    grown (q ∷ qs) = refl

pub join-split : (sep : ℕ) (cs : List ℕ) → join sep (split sep cs) ≡ cs
unfolding split join
join-split sep [] = refl
join-split sep (c ∷ cs) = join-glue sep c (split sep cs) ∙ ap (λ x. c ∷ x) (join-split sep cs)

pub codes-injective : (s t : String) → codes s ≡ codes t → s ≡ t
codes-injective String.[] String.[] h = refl
codes-injective String.[] (String.◌∷◌ d t) h = cc
codes-injective (String.◌∷◌ c s) String.[] h = cc
codes-injective (String.◌∷◌ c s) (String.◌∷◌ d t) h = cc (Char-path c d cc, codes-injective s t cc)

-- `s.length`: two units for a code point beyond the first plane.
abbrev pub utf16_length : List ℕ → ℕ
utf16_length [] = 0
utf16_length (c ∷ cs) = (if leb 65536 c then 2 else 1) + utf16_length cs
