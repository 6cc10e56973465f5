-- ===== src/Rbac/Authorization/Scope.antt =====
-- The scope of a permission, against the rows of the tables: which assignments, roles and groups
-- give it.
use rustdesk_console.Common.{
  String, ◌≡◌, refl, ap, sym, ◌∙◌, Bool, true, not, ◌&&◌, ◌||◌, List, [], ◌∷◌, map, ◌==◌, ==_iff,
  ==_comm, string_eq, if◌then◌else◌, filter, any, all, includes, unique, arith, Bool-cases, inl,
  inr, any-filter, any_congr, any_ext, any_swap, any-and, includes-map, all-includes-map,
  includes-unique,
}
use rustdesk_console.Rbac.Catalog.{
  filter_effective_permission_codes, is_device_group_scoped_permission, get_permission_requirements,
}
use rustdesk_console.Rbac.Catalog.Laws.{includes-filter_effective, is_known}
use rustdesk_console.Rbac.Database.{
  Assignment, RolePermission, AssignmentGroup, Database, Tables, IsDatabase,
}
use rustdesk_console.Rbac.Authorization.{
  codes_of_role, is_global, is_group, is_nil, load_effective_role_grants, grants, granted_scope,
}

includes-codes_of_role :
    (rows : List RolePermission) (role code : String)
    → includes (codes_of_role rows role) code
      ≡ any (λ r. (r.role_guid == role) && (r.permission_code == code)) rows
includes-codes_of_role rows role code =
    includes-map (λ (r : RolePermission). r.permission_code)
      (filter (λ r. r.role_guid == role) rows) code
    ∙ any-filter (λ (r : RolePermission). r.role_guid == role) (λ r. r.permission_code == code) rows

-- What takes effect depends on the set of codes only.
all_congr :
    (p q : String → Bool) (xs : List String) → ((x : String) → p x ≡ q x) → all p xs ≡ all q xs
all_congr p q [] h = refl
all_congr p q (x ∷ xs) h = rw (h x, all_congr p q xs h)

filter_effective_congr :
    (xs ys : List String) (c : String)
    → ((x : String) → includes xs x ≡ includes ys x)
    → includes (filter_effective_permission_codes xs) c
      ≡ includes (filter_effective_permission_codes ys) c
filter_effective_congr xs ys c h =
    includes-filter_effective xs c
    ∙ ground (
      arith,
      h c,
      all_congr (is_known xs) (is_known ys) (get_permission_requirements c) (λ x. rw (h x)),
    )
    ∙ sym (includes-filter_effective ys c)

-- A role's permission, from the table.
abbrev pub role_grants : Tables → String → String → Bool
role_grants t role code =
    includes (filter_effective_permission_codes (codes_of_role t.role_permissions role)) code

-- An assignment of the user gives the permission: its role grants it, and its scope can carry it.
abbrev pub gives : Tables → String → String → Assignment → Bool
gives t user code a =
    (a.user_guid == user)
    && (role_grants t a.role_guid code
        && (is_global a.scope_type
            || (is_group a.scope_type && is_device_group_scoped_permission code)))

module _ (t : Tables) where
  -- Some row gives the permission globally.
  abbrev pub global_by : String → String → Bool
  global_by user code = any (λ a. gives t user code a && is_global a.scope_type) t.assignments

  -- The group assignments that give the permission and name the group.
  abbrev pub in_group : String → String → String → Bool
  in_group user code group =
      any
        (λ a.
          gives t user code a
          && (is_group a.scope_type
              && any (λ g. (g.device_group_guid == group) && (g.assignment_guid == a.guid))
                  t.assignment_groups))
        t.assignments

with_key :
    (scoped : List Assignment) (g : AssignmentGroup) (group : String)
    → (includes (map (λ (a : Assignment). a.guid) scoped) g.assignment_guid
        && (g.device_group_guid == group))
      ≡ any (λ a. (g.device_group_guid == group) && (g.assignment_guid == a.guid)) scoped
with_key scoped g group = ground (
  arith,
  includes-map (λ (a : Assignment). a.guid) scoped g.assignment_guid,
  any_ext (λ a. a.guid == g.assignment_guid) (λ a. g.assignment_guid == a.guid) scoped
      (λ a. ==_comm a.guid g.assignment_guid),
  any-and (g.device_group_guid == group) (λ a. g.assignment_guid == a.guid) scoped,
)

module _ (t : Tables) (db : Database) (is_db : IsDatabase t db) where
  includes-queried :
      (roles : List String) (role code : String)
      → includes roles role ≡ true
      → includes (codes_of_role (db.find_role_permissions roles) role) code
        ≡ includes (codes_of_role t.role_permissions role) code
  includes-queried roles role code m =
      includes-codes_of_role (db.find_role_permissions roles) role code
      ∙ is_db.role_permissions roles (λ r. (r.role_guid == role) && (r.permission_code == code))
      ∙ any_congr (λ _. true) _ _ t.role_permissions (λ r _. same r) (all_true t.role_permissions)
      ∙ sym (includes-codes_of_role t.role_permissions role code)
    where
      all_true : (rows : List RolePermission) → all (λ _. true) rows ≡ true
      all_true [] = refl
      all_true (r ∷ rows) = all_true rows

      same :
          (r : RolePermission)
          → (includes roles r.role_guid && ((r.role_guid == role) && (r.permission_code == code)))
            ≡ ((r.role_guid == role) && (r.permission_code == code))
      same r = elim (Bool-cases (r.role_guid == role)) [
        | inl hit ↦ let e = (==_iff r.role_guid role).0 hit in ground (arith, ap (includes roles) e)
        | inr miss ↦ ground arith
      ]

  effective-eq-role_grants :
      (roles : List String) (role code : String)
      → includes roles role ≡ true
      → includes
          (filter_effective_permission_codes (codes_of_role (db.find_role_permissions roles) role))
          code
        ≡ role_grants t role code
  effective-eq-role_grants roles role code m =
      filter_effective_congr _ _ code λ x. includes-queried roles role x m

  -- The role permissions that were queried, for the roles of the assignments.
  abbrev queried : List Assignment → String → String → Bool
  queried as' role code =
      includes
        (filter_effective_permission_codes (
          codes_of_role
            (if is_nil as' then [] else db.find_role_permissions (map (λ a. a.role_guid) as'))
            role))
        code

  any-queried :
      (as' : List Assignment) (code : String) (q : Assignment → Bool)
      → any (λ a. queried as' a.role_guid code && q a) as'
        ≡ any (λ a. role_grants t a.role_guid code && q a) as'
  any-queried [] code q = refl
  any-queried (x ∷ xs) code q =
      let roles = map (λ (a : Assignment). a.role_guid) (x ∷ xs) in
      any_congr (λ a. includes roles a.role_guid) _ _ (x ∷ xs)
        (λ a m. ap (λ b. b && q a) (effective-eq-role_grants roles a.role_guid code m))
        (all-includes-map (λ (a : Assignment). a.role_guid) (x ∷ xs))

  abbrev has_scope : Assignment → Bool
  has_scope a = is_global a.scope_type || is_group a.scope_type

  -- The assignments that the service matches are those of the table that give the permission.
  pub any-matching :
      (user code : String) (q : Assignment → Bool)
      → any q (
          filter
            (grants (load_effective_role_grants db user) code)
            (load_effective_role_grants db user).assignments)
        ≡ any (λ a. gives t user code a && q a) t.assignments
  unfolding load_effective_role_grants
  any-matching user code q =
      let own = db.find_assignments (user ∷ []) in
      let as' = filter has_scope own in
      let carried : Assignment → Bool =
        λ a. (is_global a.scope_type || is_device_group_scoped_permission code) && q a in
      any-filter _ q as'
      ∙ any_ext (λ a. grants (load_effective_role_grants db user) code a && q a)
          (λ a. queried as' a.role_guid code && carried a) as' (λ a. ground arith)
      ∙ any-queried as' code carried
      ∙ any-filter has_scope _ own
      ∙ is_db.assignments (user ∷ []) _
      ∙ any_ext _ _ t.assignments (λ a. ground (arith, ==_comm user a.user_guid))

  -- Over queries that answer from the tables, the scope that is computed from the grants of a user's
  -- roles is global exactly when some assignment of the user has the global scope and a role that
  -- effectively grants the permission.
  pub granted_scope-global :
      (user code : String)
      → (granted_scope db (load_effective_role_grants db user) code).global ≡ global_by t user code
  unfolding granted_scope
  granted_scope-global user code =
      ground (arith, any-matching user code (λ a. is_global a.scope_type))

  groups-of :
      (scoped : List Assignment) (group : String)
      → includes
          (unique
            (map (λ g. g.device_group_guid) (db.find_assignment_groups (map (λ a. a.guid) scoped))))
          group
        ≡ any
            (λ a.
              any
                (λ g. (g.device_group_guid == group) && (g.assignment_guid == a.guid))
                t.assignment_groups)
            scoped
  groups-of scoped group =
      let keys = map (λ (a : Assignment). a.guid) scoped in
      includes-unique _ group
      ∙ includes-map (λ (g : AssignmentGroup). g.device_group_guid) (db.find_assignment_groups keys)
          group
      ∙ is_db.assignment_groups keys (λ g. g.device_group_guid == group)
      ∙ any_ext _
          (λ g. any (λ a. (g.device_group_guid == group) && (g.assignment_guid == a.guid)) scoped)
          t.assignment_groups (λ g. with_key scoped g group)
      ∙ any_swap (λ g a. (g.device_group_guid == group) && (g.assignment_guid == a.guid))
          t.assignment_groups scoped

  -- Over queries that answer from the tables, a group is in the scope that is computed from the grants
  -- of a user's roles exactly when no assignment gives the permission globally, and some assignment
  -- that gives it for groups names that group.
  pub granted_scope-groups :
      (user code group : String)
      → includes
          (granted_scope db (load_effective_role_grants db user) code).device_group_guids
          group
        ≡ (not (global_by t user code) && in_group t user code group)
  unfolding granted_scope
  granted_scope-groups user code group =
      let matching =
        filter (grants (load_effective_role_grants db user) code)
          (load_effective_role_grants db user).assignments in
      let scoped = filter (λ a. is_group a.scope_type) matching in
      let named : Assignment → Bool = λ a.
        any (λ g. (g.device_group_guid == group) && (g.assignment_guid == a.guid))
          t.assignment_groups in
      ground (
        arith,
        any-matching user code (λ a. is_global a.scope_type),
        any-matching user code (λ a. is_group a.scope_type && named a),
        any-filter (λ a. is_group a.scope_type) named matching,
        groups-of scoped group,
      )
