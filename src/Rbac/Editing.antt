-- ===== src/Rbac/Editing.antt =====
-- modules/rbac/services/role.service.ts: how a super administrator creates, changes and deletes
-- roles. The calls of the object-relational mapper are a parameter; times and the order of rows are
-- left out.
pub mod Validity
pub mod Scoped
pub mod Preserved
pub mod Deletion
pub mod Sequences
mod Tests
use rustdesk_console.Common.{
  given, or_empty, ℕ, String, ◌≡◌, Bool, true, false, not, ◌&&◌, Option, none, some, List, [], ◌∷◌,
  ◌++◌, map, ◌==◌, string_eq, length, ltb, if◌then◌else◌, filter, any, all, includes, unique,
}
use rustdesk_console.Common.Chars.{is_space}
use rustdesk_console.Common.Effects.{M, Result, ok, err, pure, get, modify, when, ◌>>=◌, ◌>>◌}
use rustdesk_console.Common.Results.{◌>>=◌ as bind_result}
use Prim.Native.Char.{code}
use rustdesk_console.Rbac.Catalog.{
  is_assignable_permission_code, is_device_group_scoped_permission, get_permission_requirements,
  sort,
}
use rustdesk_console.Rbac.Database.{AssignmentScope, Assignment, AssignmentGroup, User, Database}
use rustdesk_console.Rbac.Authorization.{
  AuthError, Auth, DeniedEvent, is_group, is_nil, require_super_admin,
}
use rustdesk_console.Rbac.RoleRules.{
  AssignmentState, CreateRoleDto, EditError, ProtectionImpact, RoleEvent, RoleResponse, RoleState,
  SaveFailure, StoredRole, UpdateRoleDto, bad_dependencies, bad_names, bad_request, conflict,
  denied, flag, may_be_scoped, missing_requirements, normalize_name, not_found, not_unique,
  other_failure, role_create, role_delete, role_update, save_failed, scoped_message, still_assigned,
  trim, trimmed_note, validate_permissions, validated_codes,
}

-- The rows of roles, with what they grant and who holds them.
pub record RoleTable (D : Type 0) : Type 0 where
  pub rbac : D → Database
  pub find_role : String → D → Option StoredRole
  pub find_named : String → D → Option StoredRole
  pub find_permissions : String → D → List String
  pub find_assignments_of : String → D → List Assignment
  pub save_role : StoredRole → D → Result SaveFailure D
  pub delete_permissions : String → D → D
  pub insert_permissions : String → List String → D → D
  pub delete_groups : List String → D → D
  pub delete_assignments_of : String → D → D
  pub delete_role_row : String → D → D
  pub record_event : RoleEvent → D → D
  pub rolled_back : D → D → D

pub record Desk (D : Type 0) : Type 0 where
  pub rows : D
  pub log : List DeniedEvent

module _ {D : Type 0} (table : RoleTable D) where
  abbrev pub Call : Type 0 → Type 0
  Call A = M (Desk D) EditError A

  abbrev pub authorized :
      {A : Type 0} → D → Result AuthError A × List DeniedEvent → Result EditError A × Desk D
  authorized d (ok a, log) = (ok a, record { rows = d; log = log })
  authorized d (err e, log) = (err (denied e), record { rows = d; log = log })

  unfoldable pub check_super_admin : String → Call User
  check_super_admin actor w =
      authorized w.rows (require_super_admin (table.rbac w.rows) actor w.log)

  -- A check that reads rows.
  unfoldable pub asked : {A : Type 0} → (D → Result EditError A) → Call A
  asked f w = (f w.rows, w)

  abbrev pub undone : {A : Type 0} → D → Result EditError A × Desk D → Result EditError A × Desk D
  undone d (ok a, w) = (ok a, w)
  undone d (err e, w) = (err e, record { rows = table.rolled_back d w.rows; log = w.log })

  unfoldable pub transaction : {A : Type 0} → Call A → Call A
  transaction m w = undone w.rows (m w)

  abbrev pub with_rows : D → Desk D → Desk D
  with_rows d w = record { rows = d; log = w.log }

  abbrev pub saved_rows :
      (SaveFailure → EditError)
      → Desk D
      → Result SaveFailure D
      → Result EditError (Unit {0}) × Desk D
  saved_rows handler w (ok d) = (ok tt, with_rows d w)
  saved_rows handler w (err e) = (err (handler e), w)

  unfoldable pub save : (SaveFailure → EditError) → StoredRole → Call (Unit {0})
  save handler role w = saved_rows handler w (table.save_role role w.rows)

  abbrev pub found_role : Option StoredRole → Result EditError StoredRole
  found_role none = err (not_found "Role not found")
  found_role (some r) = ok r

  abbrev pub is_other : Option StoredRole → Option String → Bool
  is_other none ignored = false
  is_other (some r) none = true
  is_other (some r) (some guid) = not (r.guid == guid)

  unfoldable pub ensure_name_available : String → Option String → D → Result EditError (Unit {0})
  ensure_name_available name ignored d =
      if is_other (table.find_named name d) ignored
      then err (conflict "Role name already exists")
      else ok tt

  unfoldable pub ensure_scoped_assignments_remain_valid :
      String → List String → D → Result EditError (Unit {0})
  ensure_scoped_assignments_remain_valid role permissions d =
      if not (may_be_scoped permissions)
        && any (λ a. is_group a.scope_type) (table.find_assignments_of role d)
      then err (bad_request scoped_message)
      else ok tt

  unfoldable pub replace_permissions : String → List String → D → D
  replace_permissions role permissions d =
      let cleared = table.delete_permissions role d in
      if is_nil permissions then cleared else table.insert_permissions role permissions cleared

  abbrev pub load_permission_codes : String → D → List String
  load_permission_codes role d =
      sort (filter is_assignable_permission_code (table.find_permissions role d))

  abbrev pub to_response : StoredRole → List String → RoleResponse
  to_response role permissions = record {
    guid = role.guid;
    name = role.name;
    note = or_empty role.note;
    permissions = permissions;
    protected_account = role.protected_account;
  }

  abbrev pub state_of : StoredRole → List String → RoleState
  state_of role permissions = record {
    name = role.name;
    note = role.note;
    permissions = permissions;
    protected_account = role.protected_account;
  }

  unfoldable pub get_role : String → Call RoleResponse
  get_role guid = do
    role ← asked (λ d. found_role (table.find_role guid d))
    w ← get
    pure (to_response role (load_permission_codes guid w.rows))

  unfoldable pub get_protection_impact : String → String → Call ProtectionImpact
  get_protection_impact guid actor = do
    user ← check_super_admin actor
    role ← asked (λ d. found_role (table.find_role guid d))
    w ← get
    pure (record {
      guid = guid;
      protected_account = role.protected_account;
      affected_member_count = length (table.find_assignments_of guid w.rows);
    })

  abbrev pub unique_failure : SaveFailure → EditError
  unique_failure not_unique = conflict "Role name already exists"
  unique_failure (other_failure e) = save_failed (other_failure e)

  -- `guid` is the identifier that `uuidv4` makes.
  abbrev pub created_role : String → String → CreateRoleDto → StoredRole
  created_role guid name dto = record {
    guid = guid;
    name = name;
    note = trimmed_note dto.note;
    protected_account = flag dto.protected_account;
  }

  unfoldable pub create_in_transaction : StoredRole → List String → String → Call RoleResponse
  create_in_transaction role permissions actor = do
    user ← check_super_admin actor
    save unique_failure role
    modify (λ w.
        with_rows
          (table.record_event (role_create actor role.guid (state_of role permissions))
            (replace_permissions role.guid permissions w.rows))
          w)
    pure (to_response role permissions)

  unfoldable pub create_role : String → CreateRoleDto → String → Call RoleResponse
  create_role guid dto actor = do
    name ← asked (λ d. normalize_name dto.name)
    permissions ← asked (λ d. validate_permissions dto.permissions)
    asked (ensure_name_available name none)
    transaction (create_in_transaction (created_role guid name dto) permissions actor)

  abbrev pub next_name : String → Option String → StoredRole → D → Result EditError String
  next_name guid none role d = ok role.name
  next_name guid (some value) role d = bind_result (normalize_name value) (λ name.
      if name == role.name
      then ok name
      else bind_result (ensure_name_available name (some guid) d) (λ _. ok name))

  -- The permissions that are given pass their checks; without them the role keeps its own.
  unfoldable pub next_permissions :
      String → Option (List String) → List String → D → Result EditError (List String)
  next_permissions guid none before d = ok before
  next_permissions guid (some given) before d =
      bind_result (validate_permissions given) (λ permissions.
        bind_result (ensure_scoped_assignments_remain_valid guid permissions d)
          (λ _. ok permissions))

  -- Removing the protection of a role that is held is to be confirmed.
  unfoldable pub next_protected : String → UpdateRoleDto → StoredRole → D → Result EditError Bool
  next_protected guid dto role d =
      let next = given dto.protected_account role.protected_account in
      let count = length (table.find_assignments_of guid d) in
      if role.protected_account
        && not next
        && ltb 0 count
        && not (flag dto.confirm_protected_account_change)
      then err (still_assigned count)
      else ok next

  abbrev pub next_note : Option String → Option String → Option String
  next_note none stored = stored
  next_note (some n) stored = trimmed_note (some n)

  abbrev pub updated_role : String → Bool → UpdateRoleDto → StoredRole → StoredRole
  updated_role name protected_account dto role = record {
    guid = role.guid;
    name = name;
    note = next_note dto.note role.note;
    protected_account = protected_account;
  }

  abbrev pub affected_count : String → UpdateRoleDto → Bool → D → Option ℕ
  affected_count guid dto protected_account d = counted dto.protected_account
    where
      counted : Option Bool → Option ℕ
      counted none = none
      counted (some b) =
          if protected_account then none else some (length (table.find_assignments_of guid d))

  abbrev pub replaced_if_given : String → Option (List String) → List String → D → D
  replaced_if_given guid none permissions d = d
  replaced_if_given guid (some given) permissions d = replace_permissions guid permissions d

  unfoldable pub write_update :
      String → UpdateRoleDto → String → RoleState → StoredRole → List String → Call RoleResponse
  write_update guid dto actor before updated permissions = do
    save save_failed updated
    modify (λ w.
        let replaced = replaced_if_given guid dto.permissions permissions w.rows in
        with_rows
          (table.record_event
            (role_update actor guid before (state_of updated permissions)
              (affected_count guid dto updated.protected_account replaced))
            replaced)
          w)
    pure (to_response updated permissions)

  unfoldable pub change_role :
      String → UpdateRoleDto → String → StoredRole → List String → Call RoleResponse
  change_role guid dto actor role before = do
    name ← asked (next_name guid dto.name role)
    permissions ← asked (next_permissions guid dto.permissions before)
    protected_account ← asked (next_protected guid dto role)
    write_update guid dto actor (state_of role before)
        (updated_role name protected_account dto role) permissions

  unfoldable pub update_in_transaction : String → UpdateRoleDto → String → Call RoleResponse
  update_in_transaction guid dto actor = do
    user ← check_super_admin actor
    role ← asked (λ d. found_role (table.find_role guid d))
    before ← asked (λ d. ok (load_permission_codes guid d))
    change_role guid dto actor role before

  unfoldable pub update_role : String → UpdateRoleDto → String → Call RoleResponse
  update_role guid dto actor = do
    checked ← asked (next_permissions guid dto.permissions [])
    transaction (update_in_transaction guid dto actor)

  abbrev pub snapshot : List AssignmentGroup → Assignment → AssignmentState
  snapshot groups a = record {
    assignment = a;
    device_group_guids =
        sort (map (λ g. g.device_group_guid) (filter (λ g. g.assignment_guid == a.guid) groups));
  }

  unfoldable pub deleted_rows : String → String → StoredRole → D → D
  deleted_rows guid actor role d =
      let assignments = table.find_assignments_of guid d in
      let guids = map (λ a. a.guid) assignments in
      let groups = if is_nil assignments then [] else (table.rbac d).find_assignment_groups guids in
      let revoked =
        if is_nil assignments
        then d
        else table.delete_assignments_of guid (table.delete_groups guids d) in
      table.record_event
        (role_delete actor guid (state_of role (load_permission_codes guid d))
          (map (snapshot groups) assignments))
        (table.delete_role_row guid (table.delete_permissions guid revoked))

  unfoldable pub delete_in_transaction : String → String → Call (Unit {0})
  delete_in_transaction guid actor = do
    user ← check_super_admin actor
    role ← asked (λ d. found_role (table.find_role guid d))
    modify (λ w. with_rows (deleted_rows guid actor role w.rows) w)

  unfoldable pub delete_role : String → String → Call (Unit {0})
  delete_role guid actor = transaction (delete_in_transaction guid actor)
