-- ===== src/Rbac/Editing/Validity.antt =====
-- The permissions that a role is given pass the filter that is applied when they are used.
use rustdesk_console.Common.{
  String, ◌≡◌, refl, sym, ap, ◌∙◌, Bool, true, false, not, ◌&&◌, List, [], ◌∷◌, ◌++◌, map, ◌==◌,
  string_eq, ==_iff, if◌then◌else◌, filter, all, includes, unique, includes-filter, includes-unique,
  all_weaken, subst, arith, Bool-cases, inl, inr,
}
use rustdesk_console.Common.Effects.{ok, err}
use rustdesk_console.Rbac.Catalog.{
  is_assignable_permission_code, get_permission_requirements, filter_effective_permission_codes,
}
use rustdesk_console.Rbac.Catalog.Laws.{includes-sort, includes-filter_effective, is_known}
use rustdesk_console.Rbac.Authorization.{is_nil}
use rustdesk_console.Rbac.RoleRules.{
  bad_names, bad_dependencies, missing_requirements, validated_codes, validate_permissions,
}

none_missing :
    {A : Type 0} (f : String → A) (q : String → Bool) (rs : List String) (ys : List A)
    → is_nil (map f (filter (λ r. not (q r)) rs) ++ ys) ≡ (all q rs && is_nil ys)
none_missing f q [] ys = refl
none_missing f q (r ∷ rs) ys = ground (arith, none_missing f q rs ys)

requirements-granted :
    (granted ps : List String) (c : String)
    → is_nil (missing_requirements granted ps) ≡ true
    → includes ps c ≡ true
    → all (includes granted) (get_permission_requirements c) ≡ true
requirements-granted granted [] c h m = ground arith
requirements-granted granted (p ∷ ps) c h m =
    let parts =
      none_missing (λ r. (p, r)) (includes granted) (get_permission_requirements p)
        (missing_requirements granted ps) in
    elim (Bool-cases (p == c)) [
      | inl same ↦
          let key =
            ap (λ d. all (includes granted) (get_permission_requirements d))
              ((==_iff p c).0 same) in
          ground (arith, parts)
      | inr other ↦
          requirements-granted granted ps c (ground (arith, parts)) (ground (arith, other))
    ]

no_system_codes :
    (xs : List String) (c : String)
    → is_nil (filter (λ p. not (is_assignable_permission_code p)) xs) ≡ true
    → includes xs c ≡ true
    → is_assignable_permission_code c ≡ true
no_system_codes [] c h m = ground arith
no_system_codes (x ∷ xs) c h m = elim (Bool-cases (x == c)) [
  | inl same ↦ let key = ap is_assignable_permission_code ((==_iff x c).0 same) in ground arith
  | inr other ↦ no_system_codes xs c (ground arith) (ground arith)
]

includes-validated_codes :
    (permissions : List String) (c : String)
    → includes (validated_codes permissions) c
      ≡ (is_assignable_permission_code c && includes permissions c)
includes-validated_codes permissions c =
    includes-sort (filter is_assignable_permission_code (unique permissions)) c
    ∙ includes-filter is_assignable_permission_code (unique permissions) c
    ∙ ap (λ b. is_assignable_permission_code c && b) (includes-unique permissions c)

-- The tests of the validation, passed.
validate_permissions-ok :
    (permissions codes : List String)
    → validate_permissions permissions ≡ ok codes
    → (codes ≡ validated_codes permissions)
      × (is_nil (filter (λ p. not (is_assignable_permission_code p)) (unique permissions)) ≡ true)
      × (is_nil (missing_requirements (validated_codes permissions) (validated_codes permissions))
          ≡ true)
unfolding validate_permissions
validate_permissions-ok permissions codes h =
    go (is_nil (filter (λ p. not (is_assignable_permission_code p)) (unique permissions)))
      (is_nil (missing_requirements (validated_codes permissions) (validated_codes permissions))) h
  where
    go :
        (b c : Bool)
        → (if not b
            then err (
                bad_names "Permission code cannot be assigned: "
                  (filter (λ p. not (is_assignable_permission_code p)) (unique permissions)))
            else (if not c
                then err (
                    bad_dependencies (
                      missing_requirements
                        (validated_codes permissions)
                        (validated_codes permissions)))
                else ok (validated_codes permissions)))
          ≡ ok codes
        → (codes ≡ validated_codes permissions) × (b ≡ true) × (c ≡ true)
    go true true e = (ground arith, refl, refl)
    go true false e = ground arith
    go false c e = ground arith

-- When the permissions given to a role pass the validation, it keeps exactly those that were
-- given, and each of them takes effect: the filter that is applied to the permissions of a role
-- when they are used drops none.
pub validate_permissions-effective :
    (permissions codes : List String)
    → validate_permissions permissions ≡ ok codes
    → (c : String)
    → (includes codes c ≡ includes permissions c)
      × (includes (filter_effective_permission_codes codes) c ≡ includes permissions c)
validate_permissions-effective permissions codes h c =
    let (same, system, missing) = validate_permissions-ok permissions codes h in
    let kept = validated_codes permissions in
    let held = includes-validated_codes permissions c in
    subst
      (λ ps.
        (includes ps c ≡ includes permissions c)
        × (includes (filter_effective_permission_codes ps) c ≡ includes permissions c))
      (sym same)
      (elim (Bool-cases (includes permissions c)) [
        | inl given ↦
            let known =
              no_system_codes (unique permissions) c system
                (includes-unique permissions c ∙ given) in
            let granted = requirements-granted kept kept c missing (ground (arith, held)) in
            let effective =
              all_weaken (includes kept) (is_known kept) (get_permission_requirements c)
                (λ r m. ground (arith, includes-validated_codes permissions r)) granted in
            (
              ground (arith, held),
              ground (arith, held, includes-filter_effective kept c, effective),
            )
        | inr absent ↦
            (ground (arith, held), ground (arith, held, includes-filter_effective kept c))
      ])
