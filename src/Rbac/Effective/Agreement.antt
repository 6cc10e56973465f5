-- ===== src/Rbac/Effective/Agreement.antt =====
-- The permissions computed all at once agree with the scope computed for one permission.
use rustdesk_console.Common.{
  String, ◌≡◌, refl, sym, ap, ◌∙◌, Bool, true, false, not, ◌&&◌, ◌||◌, Option, none, some, List, [],
  ◌∷◌, map, ◌==◌, string_eq, ==_comm, if◌then◌else◌, filter, any, all, includes, arith, any-filter,
  any_ext, any_congr, any_weaken, any-includes, any_swap, any-and, all-filter, includes-map,
  includes-unique,
}
use rustdesk_console.Common.Effects.{Result, ok, pure, branch, bind-ok, pure-ok, result_unique}
use rustdesk_console.Rbac.Catalog.{
  PermissionDefinition, permission_catalog, is_device_group_scoped_permission,
  is_assignable_permission_code, permission_codes,
}
use rustdesk_console.Rbac.Catalog.Laws.{includes-sort}
use rustdesk_console.Rbac.Database.{
  User, AssignmentScope, global, device_group, other_scope, Assignment, AssignmentGroup, Database,
  Tables, IsDatabase,
}
use rustdesk_console.Rbac.Authorization.{
  Auth, AuthError, DeniedEvent, get_current_user, compute_permission_scope, EffectiveRoleGrants,
  PermissionScope, is_global, is_group, is_nil, grants, load_effective_role_grants, granted_scope,
}
use rustdesk_console.Rbac.Authorization.Scope.{
  any-matching, granted_scope-global, granted_scope-groups, global_by, in_group,
}
use rustdesk_console.Rbac.Effective.{
  catalog_codes, permissions_of_user, get_effective_permissions, EffectivePermissions,
  EffectivePermissionScope, brings, brings_scoped, ids_of, scope_entry, scope_of_grants,
}

abbrev has_scope : Assignment → Bool
has_scope a = is_global a.scope_type || is_group a.scope_type

-- For an assignment with a scope, the two ways to say that it carries the permission agree.
one_scope :
    (s : AssignmentScope) (b : Bool)
    → (is_global s || is_group s) ≡ true
    → (not (is_group s && not b) ≡ (is_global s || b)) × (not (is_global s) ≡ is_group s)
one_scope global b h = (refl, refl)
one_scope device_group true h = (refl, refl)
one_scope device_group false h = (refl, refl)
one_scope (other_scope x) b h = ground arith

brings-grants :
    (g : EffectiveRoleGrants) (code : String) (a : Assignment)
    → has_scope a ≡ true
    → (brings g code a ≡ grants g code a) × (not (is_global a.scope_type) ≡ is_group a.scope_type)
brings-grants g code a h =
    let (same, scoped) = one_scope a.scope_type (is_device_group_scoped_permission code) h in
    (ap (λ b. includes (g.effective a.role_guid) code && b) same, scoped)

-- The entry says the same as the scope.
abbrev pub Agrees : Option EffectivePermissionScope → PermissionScope → Type 0
Agrees none s =
    (s.global ≡ false) × ((group : String) → includes s.device_group_guids group ≡ false)
Agrees (some e) s =
    (e.global ≡ s.global)
    × ((group : String) → includes e.device_group_guids group ≡ includes s.device_group_guids group)

module _ (t : Tables) (db : Database) (is_db : IsDatabase t db) where
  module _ (user code : String) where
    abbrev g : EffectiveRoleGrants
    g = load_effective_role_grants db user

    all-has_scope : all has_scope g.assignments ≡ true
    unfolding load_effective_role_grants
    all-has_scope = all-filter has_scope (db.find_assignments (user ∷ []))

    brings-global :
        any (λ a. is_global a.scope_type && brings g code a) g.assignments ≡ global_by t user code
    brings-global =
        any_congr has_scope (λ a. is_global a.scope_type && brings g code a)
          (λ a. grants g code a && is_global a.scope_type) g.assignments
          (λ a h. ground (arith, brings-grants g code a h)) all-has_scope
        ∙ sym (any-filter (grants g code) (λ a. is_global a.scope_type) g.assignments)
        ∙ any-matching t db is_db user code (λ a. is_global a.scope_type)

    -- The row names an assignment that brings the permission for groups.
    abbrev named : AssignmentGroup → Bool
    named r =
        any
          (λ a. (a.guid == r.assignment_guid) && (not (is_global a.scope_type) && brings g code a))
          g.assignments

    abbrev scoped_guids : List String
    scoped_guids = map (λ (a : Assignment). a.guid) (filter (brings_scoped g) g.assignments)

    named-asked :
        (r : AssignmentGroup) → named r ≡ true → includes scoped_guids r.assignment_guid ≡ true
    named-asked r h =
        includes-map (λ (a : Assignment). a.guid) (filter (brings_scoped g) g.assignments)
          r.assignment_guid
        ∙ any-filter (brings_scoped g) (λ a. a.guid == r.assignment_guid) g.assignments
        ∙ any_weaken _ (λ a. brings_scoped g a && (a.guid == r.assignment_guid)) g.assignments
            (λ a k. ground (arith, any-includes (λ c. brings g c a) (g.effective a.role_guid) code))
            h

    -- The group of some row of the table belongs to the assignment.
    abbrev in_row : String → Assignment → Bool
    in_row group a =
        any (λ r. (r.device_group_guid == group) && (r.assignment_guid == a.guid))
          t.assignment_groups

    abbrev queried_groups : List AssignmentGroup
    queried_groups =
        if is_nil (filter (brings_scoped g) g.assignments)
        then []
        else db.find_assignment_groups scoped_guids

    any-queried_groups :
        (p : AssignmentGroup → Bool)
        → any p queried_groups
          ≡ any (λ r. includes scoped_guids r.assignment_guid && p r) t.assignment_groups
    any-queried_groups p = go (filter (brings_scoped g) g.assignments)
      where
        none_asked : (rows : List AssignmentGroup) → any (λ r. false && p r) rows ≡ false
        none_asked [] = refl
        none_asked (r ∷ rows) = none_asked rows

        go :
            (scoped : List Assignment)
            → any p
                (if is_nil scoped then [] else db.find_assignment_groups (map (λ a. a.guid) scoped))
              ≡ any
                  (λ r. includes (map (λ (a : Assignment). a.guid) scoped) r.assignment_guid && p r)
                  t.assignment_groups
        go [] = sym (none_asked t.assignment_groups)
        go (a ∷ as') = is_db.assignment_groups (map (λ (a : Assignment). a.guid) (a ∷ as')) p

    one_row :
        (group : String) (a : Assignment)
        → has_scope a ≡ true
        → any
            (λ r.
              (r.device_group_guid == group)
              && ((a.guid == r.assignment_guid)
                  && (not (is_global a.scope_type) && brings g code a)))
            t.assignment_groups
          ≡ (grants g code a && (is_group a.scope_type && in_row group a))
    one_row group a h =
        let fits = not (is_global a.scope_type) && brings g code a in
        any_ext _ (λ r. fits && ((r.device_group_guid == group) && (r.assignment_guid == a.guid)))
          t.assignment_groups (λ r. ground (arith, ==_comm a.guid r.assignment_guid))
        ∙ any-and fits (λ r. (r.device_group_guid == group) && (r.assignment_guid == a.guid))
            t.assignment_groups
        ∙ ground (arith, brings-grants g code a h)

    ids-in_group :
        (group : String)
        → includes (ids_of g queried_groups code) group ≡ in_group t user code group
    ids-in_group group =
        includes-unique _ group
        ∙ includes-map (λ (r : AssignmentGroup). r.device_group_guid) (filter named queried_groups)
            group
        ∙ any-filter named (λ r. r.device_group_guid == group) queried_groups
        ∙ any-queried_groups (λ r. named r && (r.device_group_guid == group))
        ∙ any_ext _
            (λ r.
              any
                (λ a.
                  (r.device_group_guid == group)
                  && ((a.guid == r.assignment_guid)
                      && (not (is_global a.scope_type) && brings g code a)))
                g.assignments)
            t.assignment_groups
            (λ r. ground (
              arith,
              named-asked r,
              any-and (r.device_group_guid == group)
                  (λ a.
                    (a.guid == r.assignment_guid)
                    && (not (is_global a.scope_type) && brings g code a))
                  g.assignments,
            ))
        ∙ any_swap
            (λ r a.
              (r.device_group_guid == group)
              && ((a.guid == r.assignment_guid)
                  && (not (is_global a.scope_type) && brings g code a)))
            t.assignment_groups g.assignments
        ∙ any_congr has_scope _ (λ a. grants g code a && (is_group a.scope_type && in_row group a))
            g.assignments (λ a h. one_row group a h) all-has_scope
        ∙ sym (
            any-filter (grants g code) (λ a. is_group a.scope_type && in_row group a) g.assignments)
        ∙ any-matching t db is_db user code (λ a. is_group a.scope_type && in_row group a)

    entry-Agrees :
        (b : Bool) (ids : List String) (s : PermissionScope)
        → s.global ≡ b
        → ((group : String) → includes s.device_group_guids group ≡ (not b && includes ids group))
        → Agrees (scope_entry b ids) s
    entry-Agrees true ids s e f = (sym e, λ group. sym (f group))
    entry-Agrees false [] s e f = (e, f)
    entry-Agrees false (x ∷ xs) s e f =
        (sym e, λ group. includes-sort (x ∷ xs) group ∙ sym (f group))

    scope_of_grants-Agrees : Agrees (scope_of_grants db g code) (granted_scope db g code)
    unfolding scope_of_grants
    scope_of_grants-Agrees =
        entry-Agrees (any (λ a. is_global a.scope_type && brings g code a) g.assignments)
          (ids_of g queried_groups code) (granted_scope db g code)
          (granted_scope-global t db is_db user code ∙ sym brings-global)
          (λ group. ground (
            arith,
            granted_scope-groups t db is_db user code group,
            brings-global,
            ids-in_group group,
          ))

  in_catalog :
      (code : String)
      → is_assignable_permission_code code ≡ true
      → includes catalog_codes code ≡ true
  unfolding is_assignable_permission_code permission_codes
  in_catalog code h =
      includes-map (λ (p : PermissionDefinition). p.code) permission_catalog code
      ∙ any_weaken (λ p. p.assignable && (p.code == code)) (λ p. p.code == code) permission_catalog
          (λ p k. ground arith)
          (sym (
              any-filter (λ (p : PermissionDefinition). p.assignable) (λ p. p.code == code)
                permission_catalog)
            ∙ sym (
                includes-map (λ (p : PermissionDefinition). p.code)
                  (filter (λ p. p.assignable) permission_catalog) code)
            ∙ h)

  unless_taken :
      {A : Type 0} (b : Bool) (m k : Auth A) {log : List DeniedEvent}
      {r : Result AuthError A × List DeniedEvent}
      → b ≡ true
      → branch (not b) m k log ≡ r
      → k log ≡ r
  unfolding branch
  unless_taken true m k e h = h
  unless_taken false m k e h = ground arith

  -- The user is an administrator, or not.
  scopes-Agrees :
      (user code : String) (admin : Bool) (s : PermissionScope) (log log' : List DeniedEvent)
      → is_assignable_permission_code code ≡ true
      → branch {E = AuthError}
          (admin || not (is_assignable_permission_code code))
          (pure (record { global = admin; device_group_guids = [] }))
          (pure (granted_scope db (load_effective_role_grants db user) code))
          log
        ≡ (ok s, log')
      → Agrees ((permissions_of_user db user admin).scopes code) s
  unfolding branch
  scopes-Agrees user code true s log log' known h =
      let (e, _) =
        pure-ok {E = AuthError} (record { global = true; device_group_guids = [] }) s h in
      rw (in_catalog code known, e) (refl, λ group. refl)
  scopes-Agrees user code false s log log' known h =
      let (e, _) =
        pure-ok {E = AuthError} (granted_scope db (load_effective_role_grants db user) code) s
          {s = log} {s' = log'} (unless_taken (is_assignable_permission_code code) _ _ known h) in
      rw e (scope_of_grants-Agrees user code)

  -- On a database whose queries select the rows of some tables, when both calls return for a user
  -- and an assignable permission, the permission's entry in the user's effective permissions and the
  -- user's scope for it are both global or both not, and list the same device groups; a permission
  -- without an entry has a scope that is not global and lists no group.
  pub get_effective_permissions-compute_permission_scope :
      (user code : String) (p : EffectivePermissions) (s : PermissionScope)
      (log l1 l2 : List DeniedEvent)
      → is_assignable_permission_code code ≡ true
      → get_effective_permissions db user log ≡ (ok p, l1)
      → compute_permission_scope db user code log ≡ (ok s, l2)
      → Agrees (p.scopes code) s
  unfolding get_effective_permissions compute_permission_scope
  get_effective_permissions-compute_permission_scope user code p s log l1 l2 known hp hs =
      let (u, t, eu, hu) = bind-ok (get_current_user db user) _ hp in
      let (v, t', ev, hv) = bind-ok (get_current_user db user) _ hs in
      let same =
        ap (λ (x : User). x.is_admin) (result_unique (get_current_user db user log) eu ev) in
      let (e, _) = pure-ok {E = AuthError} (permissions_of_user db user u.is_admin) p hu in
      rw (e, same) (scopes-Agrees user code v.is_admin s t' l2 known hv)
