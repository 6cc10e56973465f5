-- ===== src/Rbac/Delegation/Replacement.antt =====
-- modules/rbac/services/user-role.service.ts: `replaceUserRoles` as a whole.
use rustdesk_console.Common.{
  ℕ, suc, String, ◌≡◌, Bool, true, false, not, ◌&&◌, ◌||◌, Option, none, some, List, [], ◌∷◌, map,
  ◌==◌, string_eq, if◌then◌else◌, filter, any, find?, includes,
}
use rustdesk_console.Common.Effects.{
  M, Result, ok, err, pure, throw, get, modify, when, ◌>>=◌, ◌>>◌,
}
use rustdesk_console.Rbac.Database.{Assignment, AssignmentGroup, Role, DeviceGroup, Database}
use rustdesk_console.Rbac.Authorization.{forbidden, DeniedEvent, is_nil, is_group}
use rustdesk_console.Rbac.Protection.{compute_is_protected_user}
use rustdesk_console.Rbac.Roles.{
  RoleError, denied, UserRoleAssignmentDto, NormalizedAssignment, validate_assignments,
  group_permissions, LoadedAssignment, load_assignments, Scopes, effective_scopes,
}
use rustdesk_console.Rbac.Eligibility.{Checks, Eligibility, found_user, get_role_eligibility}
use rustdesk_console.Rbac.Delegation.{
  role_guids, refuse, refuse_found, rows_of, roles_of, check_roles_exist, check_group_scopes,
  check_groups_exist, check_scope, check_actor, check_target,
}

abbrev pub own_roles : String
own_roles = "You cannot modify your own roles"

abbrev pub protected_target : String
protected_target = "Protected accounts can only be modified by a super administrator"

abbrev pub lift : {A : Type 0} → Result RoleError A → Checks A
lift (ok a) = pure a
lift (err e) = throw e

-- Is the request not allowed by the row of its role?
abbrev pub may_not_assign : List Eligibility → NormalizedAssignment → Bool
may_not_assign rows a = not (allows (find? (λ r. r.guid == a.role_guid) rows))
  where
    allows : Option Eligibility → Bool
    allows none = false
    allows (some r) = r.can_assign

module _ (db : Database) where
  -- What a caller who is no owner is asked before the transaction.
  unfoldable pub check_eligibility :
      List Role → List DeviceGroup → String → String → List NormalizedAssignment → Checks (Unit {0})
  check_eligibility roles groups user_guid actor_guid requested = do
    let current = map (λ a. a.assignment.role_guid) (load_assignments db user_guid)
    rows ← get_role_eligibility db roles groups user_guid actor_guid
    refuse_found (λ r. r.guid) "Cannot remove protected role: "
        (find? (λ r. not (includes (role_guids requested) r.guid))
          (filter (λ r. r.assigned && not r.can_remove) rows))
    refuse_found (λ a. a.role_guid) "Role cannot be assigned: "
        (find? (λ a. may_not_assign rows a && not (includes current a.role_guid)) requested)
    check_scope db actor_guid requested

  unfoldable pub check_before :
      List Role
      → List DeviceGroup
      → String
      → List UserRoleAssignmentDto
      → String
      → Checks (List NormalizedAssignment)
  check_before roles groups user_guid dtos actor_guid = do
    requested ← lift (validate_assignments dtos)
    check_roles_exist db (role_guids requested)
    check_group_scopes db requested
    owner ← check_actor db actor_guid
    target ← check_target db user_guid
    when (not owner) (do
      refuse (user_guid == actor_guid) (denied (forbidden own_roles))
      refuse (compute_is_protected_user db false user_guid target.is_admin)
          (denied (forbidden protected_target))
      check_eligibility roles groups user_guid actor_guid requested)
    check_groups_exist db requested
    pure requested

  -- The roles that only an owner takes away.
  abbrev pub locked_role_guids : List String → List String
  locked_role_guids guids =
      let rows = rows_of db guids in
      filter
        (λ g.
          any (λ r. (r.guid == g) && r.protected_account) (roles_of db guids)
          || (any (λ r. r.role_guid == g) rows
              && includes (group_permissions rows g) "roles.assign"))
        guids

  unfoldable pub check_given_roles : Bool → List String → Checks (Unit {0})
  check_given_roles owner guids = do
    when (not owner) (
        refuse_found (λ r. r.guid) "Protected roles can only be assigned by a super administrator: "
          (find? (λ r. r.protected_account) (roles_of db guids)))
    refuse
        (not owner
          && any (λ r. includes (group_permissions (rows_of db guids) r.role_guid) "roles.assign")
              (rows_of db guids))
        (denied
          (forbidden "Roles containing roles.assign can only be assigned by a super administrator"))

  unfoldable pub check_taken_roles : List String → List Assignment → Checks (Unit {0})
  check_taken_roles requested_guids current =
      let locked = locked_role_guids (map (λ a. a.role_guid) current) in
      refuse_found (λ (a : Assignment). a.role_guid) "Cannot remove protected role: "
        (find? (λ a. not (includes requested_guids a.role_guid) && includes locked a.role_guid)
          current)

  -- The checks of the transaction, all made before it writes.
  unfoldable pub check_within : String → List NormalizedAssignment → String → Checks (Unit {0})
  check_within user_guid requested actor_guid = do
    owner ← check_actor db actor_guid
    target ← check_target db user_guid
    refuse (not owner && compute_is_protected_user db true user_guid target.is_admin)
        (denied (forbidden protected_target))
    refuse (not owner && (user_guid == actor_guid)) (denied (forbidden own_roles))
    check_roles_exist db (role_guids requested)
    check_given_roles owner (role_guids requested)
    check_group_scopes db requested
    check_groups_exist db requested
    when (not owner) (do
      check_taken_roles (role_guids requested) (db.find_assignments (user_guid ∷ []))
      check_scope db actor_guid requested)

-- What the audit keeps of a replacement.
pub record Replaced : Type 0 where
  pub actor_user_guid : String
  pub target_guid : String
  pub before_state : List LoadedAssignment
  pub after_state : List NormalizedAssignment

pub record RoleStore (D : Type 0) : Type 0 where
  pub rbac : D → Database
  pub all_roles : D → List Role
  pub all_groups : D → List DeviceGroup
  pub delete_assignment_groups : List String → D → D
  pub delete_assignments : String → D → D
  pub save_assignment : Assignment → D → D
  pub insert_assignment_groups : List AssignmentGroup → D → D
  pub record_replaced : Replaced → D → D
  pub rolled_back : D → D → D

-- What the calls do to the assignments of a user and to the groups of assignments: which tests hold
-- of some row. `save` is called with identifiers that `uuidv4` has just made, and so adds a row.
pub record IsRoleStore {D : Type 0} (store : RoleStore D) : Type 0 where
  pub assignments-saved :
      (a : Assignment) (d : D) (u : String) (q : Assignment → Bool)
      → any q ((store.rbac (store.save_assignment a d)).find_assignments (u ∷ []))
        ≡ (((a.user_guid == u) && q a) || any q ((store.rbac d).find_assignments (u ∷ [])))
  pub assignments-deleted :
      (user : String) (d : D) (u : String) (q : Assignment → Bool)
      → any q ((store.rbac (store.delete_assignments user d)).find_assignments (u ∷ []))
        ≡ (not (user == u) && any q ((store.rbac d).find_assignments (u ∷ [])))
  pub assignments-ungrouped :
      (guids : List String) (d : D) (u : String)
      → (store.rbac (store.delete_assignment_groups guids d)).find_assignments (u ∷ [])
        ≡ (store.rbac d).find_assignments (u ∷ [])
  pub assignments-grouped :
      (gs : List AssignmentGroup) (d : D) (u : String)
      → (store.rbac (store.insert_assignment_groups gs d)).find_assignments (u ∷ [])
        ≡ (store.rbac d).find_assignments (u ∷ [])
  pub assignments-recorded :
      (r : Replaced) (d : D) (u : String)
      → (store.rbac (store.record_replaced r d)).find_assignments (u ∷ [])
        ≡ (store.rbac d).find_assignments (u ∷ [])
  pub groups-saved :
      (a : Assignment) (d : D) (keys : List String)
      → (store.rbac (store.save_assignment a d)).find_assignment_groups keys
        ≡ (store.rbac d).find_assignment_groups keys
  pub groups-deleted :
      (user : String) (d : D) (keys : List String)
      → (store.rbac (store.delete_assignments user d)).find_assignment_groups keys
        ≡ (store.rbac d).find_assignment_groups keys
  pub groups-ungrouped :
      (guids : List String) (d : D) (keys : List String) (q : AssignmentGroup → Bool)
      → any q ((store.rbac (store.delete_assignment_groups guids d)).find_assignment_groups keys)
        ≡ any
            (λ g. not (includes guids g.assignment_guid) && q g)
            ((store.rbac d).find_assignment_groups keys)
  pub groups-grouped :
      (gs : List AssignmentGroup) (d : D) (keys : List String) (q : AssignmentGroup → Bool)
      → any q ((store.rbac (store.insert_assignment_groups gs d)).find_assignment_groups keys) ≡ (
          any (λ g. includes keys g.assignment_guid && q g) gs
          || any q ((store.rbac d).find_assignment_groups keys))
  pub groups-recorded :
      (r : Replaced) (d : D) (keys : List String)
      → (store.rbac (store.record_replaced r d)).find_assignment_groups keys
        ≡ (store.rbac d).find_assignment_groups keys

pub record RoleService (D : Type 0) : Type 0 where
  pub rows : D
  pub log : List DeniedEvent

module _ {D : Type 0} (store : RoleStore D) where
  abbrev pub Call : Type 0 → Type 0
  Call A = M (RoleService D) RoleError A

  abbrev pub after_checks :
      {A : Type 0} → D → Result RoleError A × List DeniedEvent → Result RoleError A × RoleService D
  after_checks d (r, log) = (r, record { rows = d; log = log })

  unfoldable pub checks : {A : Type 0} → (Database → Checks A) → Call A
  checks m w = after_checks w.rows (m (store.rbac w.rows) w.log)

  abbrev pub undone :
      {A : Type 0} → D → Result RoleError A × RoleService D → Result RoleError A × RoleService D
  undone d (ok a, w) = (ok a, w)
  undone d (err e, w) = (err e, record { rows = store.rolled_back d w.rows; log = w.log })

  unfoldable pub transaction : {A : Type 0} → Call A → Call A
  transaction m w = undone w.rows (m w)

  abbrev pub stored_groups : String → NormalizedAssignment → List AssignmentGroup
  stored_groups guid a =
      map (λ g. record { assignment_guid = guid; device_group_guid = g }) a.device_group_guids

  abbrev pub stored_assignment : String → String → NormalizedAssignment → Assignment
  stored_assignment guid user_guid a = record {
    guid = guid;
    user_guid = user_guid;
    role_guid = a.role_guid;
    scope_type = a.scope_type;
  }

  unfoldable pub get_user_roles : String → Call (List LoadedAssignment × Scopes)
  get_user_roles user_guid = do
    user ← checks (λ db. found_user (db.find_user user_guid))
    w ← get
    let assignments = load_assignments (store.rbac w.rows) user_guid
    pure (assignments, effective_scopes assignments [])

  -- `uuid n` is the identifier that `uuidv4` makes at its n-th call.
  module _ (uuid : ℕ → String) where
    unfoldable pub save_all : String → ℕ → List NormalizedAssignment → D → D
    save_all user_guid n [] d = d
    save_all user_guid n (a ∷ as') d =
        let saved = store.save_assignment (stored_assignment (uuid n) user_guid a) d in
        save_all user_guid (suc n) as' (
          if is_group a.scope_type
          then store.insert_assignment_groups (stored_groups (uuid n) a) saved
          else saved)

    unfoldable pub write_roles : String → List NormalizedAssignment → String → D → D
    write_roles user_guid requested actor_guid d =
        let current = (store.rbac d).find_assignments (user_guid ∷ []) in
        let cleared =
          if is_nil current
          then d
          else store.delete_assignment_groups (map (λ a. a.guid) current) d in
        store.record_replaced
          (record {
            actor_user_guid = actor_guid;
            target_guid = user_guid;
            before_state = load_assignments (store.rbac d) user_guid;
            after_state = requested;
          })
          (save_all user_guid 0 requested (store.delete_assignments user_guid cleared))

    unfoldable pub replace_in_transaction :
        String → List NormalizedAssignment → String → Call (Unit {0})
    replace_in_transaction user_guid requested actor_guid = do
      checks (λ db. check_within db user_guid requested actor_guid)
      modify (λ w. record { rows = write_roles user_guid requested actor_guid w.rows; log = w.log })

    unfoldable pub replace_user_roles :
        String → List UserRoleAssignmentDto → String → Call (List LoadedAssignment × Scopes)
    replace_user_roles user_guid dtos actor_guid = do
      w ← get
      requested ← checks (λ db.
          check_before db (store.all_roles w.rows) (store.all_groups w.rows) user_guid dtos
            actor_guid)
      transaction (replace_in_transaction user_guid requested actor_guid)
      get_user_roles user_guid
