-- ===== src/Rbac/Protection/Laws.antt =====
-- Which accounts are protected, one by one and in bulk, and what a change of an account needs.
use rustdesk_console.Common.{
  String, ◌≡◌, refl, ap, ◌∙◌, Bool, true, false, not, ◌&&◌, ◌||◌, Option, none, some, List, [], ◌∷◌,
  map, ◌==◌, ==_iff, string_eq, if◌then◌else◌, any, includes, unique, arith, Bool-cases,
  Option-cases, inl, inr, subst, lookup, put, lookup-put, any_ext, any-and, any_congr, includes-map,
  includes-unique, all-includes-map,
}
use rustdesk_console.Common.Effects.{
  Result, ok, err, continue, pure, throw, branch, when, ◌>>=◌, ◌>>◌,
}
use rustdesk_console.Rbac.Database.{User, Assignment, Role, Database, Tables, IsDatabase}
use rustdesk_console.Rbac.Authorization.{
  AuthError, DeniedEvent, PermissionScope, is_active, require_permission, opened,
}
use rustdesk_console.Rbac.Authorization.Access.{require_permission-log}
use rustdesk_console.Rbac.Protection.{
  ProtectionMap, mark_owners, mark_holders, compute_is_protected_user, get_effective_protection_map,
  require_super_admin_for, assert_user_mutation, assert_system_owner_is_not_removed, found_target,
}

abbrev pub is_marked : Option Bool → Bool
is_marked none = false
is_marked (some b) = b

abbrev pub marks : ProtectionMap → String → Bool
marks m g = is_marked (lookup g m)

marks-start : (gs : List String) (g : String) → marks (map (λ x. (x, false)) gs) g ≡ false
marks-start [] g = refl
marks-start (x ∷ gs) g = ground (arith, marks-start gs g)

marks-mark_owners :
    (us : List User) (m : ProtectionMap) (g : String)
    → marks (mark_owners us m) g ≡ (any (λ u. (u.guid == g) && u.is_admin) us || marks m g)
marks-mark_owners [] m g = refl
marks-mark_owners (u ∷ us) m g = ground (
  arith,
  marks-mark_owners us (if u.is_admin then put u.guid true m else m) g,
  lookup-put u.guid g true m,
)

marks-mark_holders :
    (roles : List String) (as' : List Assignment) (m : ProtectionMap) (g : String)
    → marks (mark_holders roles as' m) g
      ≡ (any (λ a. (a.user_guid == g) && includes roles a.role_guid) as' || marks m g)
marks-mark_holders roles [] m g = refl
marks-mark_holders roles (a ∷ as') m g = ground (
  arith,
  marks-mark_holders roles as' (if includes roles a.role_guid then put a.user_guid true m else m) g,
  lookup-put a.user_guid g true m,
)

-- The rows that protect an account: its own, as an owner, and an assignment of a protected role.
abbrev pub is_owner_row : Tables → String → Bool
is_owner_row t g = any (λ u. (u.guid == g) && u.is_admin) t.users

abbrev pub is_protected_role : Tables → String → Bool
is_protected_role t role = any (λ r. (r.guid == role) && r.protected_account) t.roles

abbrev pub holds_protected_role : Tables → String → Bool
holds_protected_role t g =
    any (λ a. (a.user_guid == g) && is_protected_role t a.role_guid) t.assignments

module _ {A : Type 0} (key : A → String) (keys : List String) (g : String) where
  -- Rows with one key, among those whose keys are asked for.
  asked_for :
      (p : A → Bool) (rows : List A)
      → any (λ a. includes keys (key a) && ((key a == g) && p a)) rows
        ≡ (includes keys g && any (λ a. (key a == g) && p a) rows)
  asked_for p rows =
      any_ext _ (λ a. includes keys g && ((key a == g) && p a)) rows (λ a. same a)
      ∙ any-and (includes keys g) (λ a. (key a == g) && p a) rows
    where
      same :
          (a : A)
          → (includes keys (key a) && ((key a == g) && p a))
            ≡ (includes keys g && ((key a == g) && p a))
      same a = elim (Bool-cases (key a == g)) [
        | inl hit ↦ let e = (==_iff (key a) g).0 hit in ground (arith, ap (includes keys) e)
        | inr miss ↦ ground arith
      ]

module _ (t : Tables) (db : Database) (is_db : IsDatabase t db) where
  protected_role_of :
      (keys : List String) (role : String)
      → includes keys role ≡ true
      → includes (map (λ r. r.guid) (db.find_protected_roles keys)) role ≡ is_protected_role t role
  protected_role_of keys role m =
      includes-map (λ (r : Role). r.guid) (db.find_protected_roles keys) role
      ∙ is_db.protected_roles keys (λ r. r.guid == role)
      ∙ any_ext _ (λ r. includes keys r.guid && ((r.guid == role) && r.protected_account)) t.roles
          (λ r. ground arith)
      ∙ asked_for (λ (r : Role). r.guid) keys role (λ r. r.protected_account) t.roles
      ∙ ground arith

  any-assignments :
      (as' : List Assignment) (g : String)
      → any
          (λ a.
            (a.user_guid == g)
            && includes
                (map (λ r. r.guid) (db.find_protected_roles (unique (map (λ x. x.role_guid) as'))))
                a.role_guid)
          as'
        ≡ any (λ a. (a.user_guid == g) && is_protected_role t a.role_guid) as'
  any-assignments as' g =
      let roles = map (λ (a : Assignment). a.role_guid) as' in
      any_congr (λ a. includes roles a.role_guid) _ _ as'
        (λ a m.
          ap (λ b. (a.user_guid == g) && b)
            (protected_role_of (unique roles) a.role_guid (includes-unique roles a.role_guid ∙ m)))
        (all-includes-map (λ (a : Assignment). a.role_guid) as')

  -- Over queries that answer from the tables, the bulk projection marks an account exactly when it is
  -- among those asked for, and is an owner or holds a protected role.
  pub marks-get_effective_protection_map :
      (guids : List String) (g : String)
      → marks (get_effective_protection_map db guids) g
        ≡ (includes guids g && (is_owner_row t g || holds_protected_role t g))
  unfolding get_effective_protection_map
  marks-get_effective_protection_map guids g =
      let asked = unique guids in
      let start : ProtectionMap = map (λ x. (x, false)) asked in
      let as' = db.find_assignments asked in
      let roles =
        map (λ (r : Role). r.guid)
          (db.find_protected_roles (unique (map (λ a. a.role_guid) as'))) in
      ground (
        arith,
        marks-start asked g,
        includes-unique guids g,
        marks-mark_owners (db.find_users asked) start g,
        marks-mark_holders roles as' (mark_owners (db.find_users asked) start) g,
        is_db.users asked (λ u. (u.guid == g) && u.is_admin),
        asked_for (λ (u : User). u.guid) asked g (λ u. u.is_admin) t.users,
        any-assignments as' g,
        is_db.assignments asked (λ a. (a.user_guid == g) && is_protected_role t a.role_guid),
        asked_for (λ (a : Assignment). a.user_guid) asked g (λ a. is_protected_role t a.role_guid)
            t.assignments,
      )

abbrev pub is_some_user : Option User → Bool
is_some_user none = false
is_some_user (some u) = true

-- An active administrator.
abbrev pub is_super_admin : Option User → Bool
is_super_admin none = false
is_super_admin (some u) = is_active u.status && u.is_admin

abbrev pub removes_owner : Option User → String → Bool
removes_owner none code = false
removes_owner (some u) code = u.is_admin && ((code == "users.status") || (code == "users.delete"))

abbrev pub owner_flag : Option User → Bool
owner_flag none = false
owner_flag (some u) = u.is_admin

module _ (db : Database) (in_transaction : Bool) (actor target code : String) where
  abbrev is_protected : Bool
  is_protected =
      compute_is_protected_user db in_transaction target (owner_flag (db.find_user target))

  -- What a change that is let through has established.
  pub record IsAllowed (log log' : List DeniedEvent) : Type 0 where
    pub unaudited : log' ≡ log
    pub exists_target : is_some_user (db.find_user target) ≡ true
    pub keeps_owner : removes_owner (db.find_user target) code ≡ false
    pub by_super_admin : (not is_protected || is_super_admin (db.find_user actor)) ≡ true

  require_super_admin_for-ok :
      (log log' : List DeniedEvent)
      → require_super_admin_for db actor target log ≡ (ok tt, log')
      → (log' ≡ log) × (is_super_admin (db.find_user actor) ≡ true)
  unfolding require_super_admin_for opened
  require_super_admin_for-ok log log' h = elim (Option-cases (db.find_user actor)) [
    | inl unknown ↦ (ground arith, ground arith)
    | inr (u, e) ↦ (ground arith, ground arith)
  ]

  found-IsAllowed :
      (log log' : List DeniedEvent) (u : User)
      → db.find_user target ≡ some u
      → (do
        assert_system_owner_is_not_removed u code
        when
            (compute_is_protected_user db in_transaction target u.is_admin)
            (require_super_admin_for db actor target))
          log
        ≡ (ok tt, log')
      → IsAllowed log log'
  unfolding assert_system_owner_is_not_removed ◌>>=◌ when branch pure throw
  found-IsAllowed log log' u e h = record {
    unaudited = ground (arith, require_super_admin_for-ok log log');
    exists_target = rw e refl;
    keeps_owner = rw e (ground arith);
    by_super_admin = rw e (ground (arith, require_super_admin_for-ok log log'));
  }

  after-IsAllowed :
      (log log' : List DeniedEvent) (r : Result AuthError PermissionScope × List DeniedEvent)
      → r.1 ≡ log
      → continue r (λ scope. do
        u ← found_target (db.find_user target)
        assert_system_owner_is_not_removed u code
        when
            (compute_is_protected_user db in_transaction target u.is_admin)
            (require_super_admin_for db actor target))
        ≡ (ok tt, log')
      → IsAllowed log log'
  unfolding ◌>>=◌ pure throw
  after-IsAllowed log log' (ok scope, s) e h = elim (Option-cases (db.find_user target)) [
    | inl missing ↦ absurd (ground arith)
    | inr (u, f) ↦ subst (λ l. IsAllowed l log') e (found-IsAllowed s log' u f (rw f at h))
  ]
  after-IsAllowed log log' (err x, s) e h = absurd (cc)

  -- If a change of an account is let through, the target exists, the change neither disables nor
  -- deletes an owner, the actor is an active super administrator if the target is protected, and
  -- nothing has been added to the audit.
  pub assert_user_mutation-IsAllowed :
      (log log' : List DeniedEvent)
      → assert_user_mutation db in_transaction actor target code log ≡ (ok tt, log')
      → IsAllowed log log'
  unfolding assert_user_mutation ◌>>=◌
  assert_user_mutation-IsAllowed log log' h =
      after-IsAllowed log log' (require_permission db actor code log)
        (require_permission-log db actor code log) h
