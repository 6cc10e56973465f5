-- ===== src/Rbac/Catalog/Laws.antt =====
-- Which codes take effect: the set of codes alone decides it, what takes effect is closed under
-- requirements, and taking effect twice changes nothing.
use rustdesk_console.Common.{
  String, ◌≡◌, refl, ap, sym, ◌∙◌, Bool, true, false, ◌&&◌, ◌||◌, Option, none, some, List, [], ◌∷◌,
  ◌==◌, string_eq, filter, all, find?, includes, unique, arith, Bool-cases, Bool-ext,
  includes-filter, includes-unique, all-includes, all_of_includes, inl, inr, and-true,
}
use rustdesk_console.Rbac.Catalog.{
  PermissionDefinition, permission_catalog, is_assignable_permission_code,
  get_permission_requirements, requirements_of, or_none, insert_sorted, sort,
  filter_effective_permission_codes,
}

includes-insert_sorted :
    (a : String) (xs : List String) (c : String)
    → includes (insert_sorted a xs) c ≡ ((a == c) || includes xs c)
includes-insert_sorted a [] c = refl
includes-insert_sorted a (x ∷ xs) c = ground (arith, includes-insert_sorted a xs c)

pub includes-sort : (xs : List String) (c : String) → includes (sort xs) c ≡ includes xs c
includes-sort [] c = refl
includes-sort (x ∷ xs) c = ground (arith, includes-insert_sorted x (sort xs) c, includes-sort xs c)

-- `known` of the source has the assignable codes among `codes`.
includes-known :
    (codes : List String) (c : String)
    → includes (unique (filter is_assignable_permission_code codes)) c
      ≡ (is_assignable_permission_code c && includes codes c)
includes-known codes c =
    includes-unique (filter is_assignable_permission_code codes) c
    ∙ includes-filter is_assignable_permission_code codes c

abbrev pub is_known : List String → String → Bool
is_known codes c = is_assignable_permission_code c && includes codes c

all-known :
    (codes rs : List String)
    → all (includes (unique (filter is_assignable_permission_code codes))) rs
      ≡ all (is_known codes) rs
all-known codes [] = refl
all-known codes (r ∷ rs) = rw (includes-known codes r, all-known codes rs)

-- A code takes effect exactly when it is assignable and held, and so is each that it requires.
pub includes-filter_effective :
    (codes : List String) (c : String)
    → includes (filter_effective_permission_codes codes) c
      ≡ (all (is_known codes) (get_permission_requirements c) && is_known codes c)
unfolding filter_effective_permission_codes
includes-filter_effective codes c =
    let known = unique (filter is_assignable_permission_code codes) in
    includes-sort (filter (λ x. all (includes known) (get_permission_requirements x)) known) c
    ∙ includes-filter (λ x. all (includes known) (get_permission_requirements x)) known c
    ∙ ground (arith, all-known codes (get_permission_requirements c), includes-known codes c)

abbrev is_empty : List String → Bool
is_empty [] = true
is_empty (x ∷ xs) = false

-- No chain: what an assignable permission requires requires nothing itself.
requires_once : PermissionDefinition → Bool
requires_once item = all (λ r. is_empty (get_permission_requirements r)) (or_none item.requires)

catalog_requires_once :
    all requires_once (filter (λ item. item.assignable) permission_catalog) ≡ true
unfolding requires_once permission_catalog get_permission_requirements
catalog_requires_once = refl

find?-all {ℓ} :
    {A : Type ℓ} (p q : A → Bool) (xs : List A) (a : A)
    → all q xs ≡ true
    → find? p xs ≡ some a
    → q a ≡ true
find?-all p q [] a h k = cc
find?-all p q (x ∷ xs) a h k = elim (Bool-cases (p x)) [
  | inl hit ↦ ground (arith, ap q (some_eq (rw hit at k)))
  | inr miss ↦ find?-all p q xs a (and-true (q x) (all q xs) h).1 (rw miss at k)
]
  where
    some_eq : some x ≡ some a → x ≡ a
    some_eq e = cc

abbrev RequiresNothingMore : List String → Type 0
RequiresNothingMore rs = all (λ r. is_empty (get_permission_requirements r)) rs ≡ true

of_found :
    (o : Option PermissionDefinition)
    → ((item : PermissionDefinition) → o ≡ some item → requires_once item ≡ true)
    → RequiresNothingMore (requirements_of o)
unfolding requires_once
of_found none h = refl
of_found (some item) h = h item refl

requirements-requires_once : (c : String) → RequiresNothingMore (get_permission_requirements c)
requirements-requires_once c =
    unfold get_permission_requirements in
    of_found (find? (λ item. item.code == c) (filter (λ item. item.assignable) permission_catalog))
      (λ item e. find?-all _ requires_once _ item catalog_requires_once e)

all_of_is_empty : (p : String → Bool) (rs : List String) → is_empty rs ≡ true → all p rs ≡ true
all_of_is_empty p [] h = refl
all_of_is_empty p (r ∷ rs) h = cc

module _ (codes : List String) (c : String)
    (held : includes (filter_effective_permission_codes codes) c ≡ true) where
  effective-known :
      (all (is_known codes) (get_permission_requirements c) ≡ true) × (is_known codes c ≡ true)
  effective-known = and-true _ _ (sym (includes-filter_effective codes c) ∙ held)

  required-effective :
      (r : String)
      → includes (get_permission_requirements c) r ≡ true
      → (includes (filter_effective_permission_codes codes) r ≡ true) × (is_known codes r ≡ true)
  required-effective r m =
      let known =
        all-includes (is_known codes) (get_permission_requirements c) r effective-known.0 m in
      let nothing_more =
        all-includes _ (get_permission_requirements c) r (requirements-requires_once c) m in
      (
        includes-filter_effective codes r
            ∙ rw (all_of_is_empty (is_known codes) (get_permission_requirements r) nothing_more)
                known,
        known,
      )

  -- If a code takes effect, every code that the catalog requires for it takes effect too.
  pub filter_effective_closed :
      all (includes (filter_effective_permission_codes codes)) (get_permission_requirements c)
      ≡ true
  filter_effective_closed =
      all_of_includes _ (get_permission_requirements c) λ r m. (required-effective r m).0

  effective_again :
      includes (filter_effective_permission_codes (filter_effective_permission_codes codes)) c
      ≡ true
  effective_again =
      includes-filter_effective (filter_effective_permission_codes codes) c
      ∙ ground (
        arith,
        held,
        effective-known.1,
        all_of_includes (is_known (filter_effective_permission_codes codes))
            (get_permission_requirements c) λ r m. both r (required-effective r m),
      )
    where
      both :
          (r : String)
          → (includes (filter_effective_permission_codes codes) r ≡ true)
            × (is_known codes r ≡ true)
          → is_known (filter_effective_permission_codes codes) r ≡ true
      both r h = ground arith

-- Filtering the codes that take effect once more leaves the same codes.
pub filter_effective_idempotent :
    (codes : List String) (c : String)
    → includes (filter_effective_permission_codes (filter_effective_permission_codes codes)) c
      ≡ includes (filter_effective_permission_codes codes) c
filter_effective_idempotent codes c =
    Bool-ext _ _
      (λ again.
        ground (arith, includes-filter_effective (filter_effective_permission_codes codes) c))
      (effective_again codes c)
