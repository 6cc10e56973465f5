-- ===== src/Rbac/Eligibility.antt =====
-- modules/rbac/services/user-role.service.ts: which roles an actor may give to a user or take away.
use rustdesk_console.Common.{
  String, Bool, true, false, not, ◌&&◌, ◌||◌, Option, none, some, List, [], ◌∷◌, map, ◌==◌,
  string_eq, if◌then◌else◌, filter, all, includes,
}
use rustdesk_console.Common.Effects.{M, Result, ok, err, pure, throw, branch, ◌>>=◌}
use rustdesk_console.Rbac.Catalog.{is_assignable_permission_code, is_device_group_scoped_permission}
use rustdesk_console.Rbac.Database.{
  User, AssignmentScope, global, device_group, Role, DeviceGroup, Database,
}
use rustdesk_console.Rbac.Authorization.{
  Auth, AuthError, not_found, DeniedEvent, is_nil, get_current_user,
}
use rustdesk_console.Rbac.Protection.{compute_is_protected_user}
use rustdesk_console.Rbac.Effective.{EffectivePermissionScope, get_effective_permissions}
use rustdesk_console.Rbac.Roles.{RoleError, denied, group_permissions, load_assignments}

abbrev pub Checks : Type 0 → Type 0
Checks A = M (List DeniedEvent) RoleError A

abbrev pub with_denied :
    {A : Type 0} → Result AuthError A × List DeniedEvent → Result RoleError A × List DeniedEvent
with_denied (ok a, log) = (ok a, log)
with_denied (err e, log) = (err (denied e), log)

-- A check of the authorization service.
unfoldable pub auth : {A : Type 0} → Auth A → Checks A
auth m log = with_denied (m log)

abbrev pub CallerScopes : Type 0
CallerScopes = String → Option EffectivePermissionScope

abbrev pub is_global_in : CallerScopes → String → Bool
is_global_in scopes code = holds (scopes code)
  where
    holds : Option EffectivePermissionScope → Bool
    holds none = false
    holds (some s) = s.global

abbrev pub judged : Option EffectivePermissionScope → String → Option String → Option String
judged none p rest = some "missing_permission"
judged (some s) p rest =
    if s.global || is_device_group_scoped_permission p then rest else some "scope_exceeds_caller"

-- What keeps the caller from giving the first permission that is not theirs to give.
abbrev pub permission_reason : CallerScopes → List String → Option String
permission_reason scopes [] = none
permission_reason scopes (p ∷ ps) = judged (scopes p) p (permission_reason scopes ps)

-- May the group be chosen for the permission?
abbrev pub group_allowed : CallerScopes → String → String → Bool
group_allowed scopes group code = holds (scopes code)
  where
    holds : Option EffectivePermissionScope → Bool
    holds none = true
    holds (some s) = s.global || includes s.device_group_guids group

pub record Eligibility : Type 0 where
  pub guid : String
  pub protected_account : Bool
  pub assigned : Bool
  pub can_assign : Bool
  pub can_remove : Bool
  pub reason_code : Option String
  pub allowed_scope_types : List AssignmentScope
  pub assignable_device_groups : List String

-- Who asks, for whom.
pub record Situation : Type 0 where
  pub owner : Bool
  pub self_target : Bool
  pub admin_target : Bool
  pub protected_target : Bool
  pub scopes : CallerScopes

abbrev pub role_reason : Situation → Role → List String → Option String
role_reason s role permissions =
    if s.admin_target
    then some "super_admin_target"
    else if s.owner
    then none
    else if s.self_target
    then some "self_target"
    else if s.protected_target
    then some "protected_target"
    else if role.protected_account
    then some "protected_role"
    else if includes permissions "roles.assign"
    then some "role_grants_roles_assign"
    else permission_reason s.scopes permissions

abbrev pub or_reason : Option String → Bool → Option String
or_reason none exceeds = if exceeds then some "scope_exceeds_caller" else none
or_reason (some r) exceeds = some r

abbrev pub is_clear : Option String → Bool
is_clear none = true
is_clear (some r) = false

unfoldable pub eligibility :
    Situation → List DeviceGroup → List String → (String → List String) → Role → Eligibility
eligibility s groups assigned permissions_of role =
    let permissions = permissions_of role.guid in
    let global_allowed =
      s.owner || (not (is_nil permissions) && all (is_global_in s.scopes) permissions) in
    let all_scoped =
      not (is_nil permissions) && all is_device_group_scoped_permission permissions in
    let guids = map (λ (g : DeviceGroup). g.guid) groups in
    let allowed =
      if not all_scoped
      then []
      else if s.owner
      then guids
      else filter (λ g. all (group_allowed s.scopes g) permissions) guids in
    let some_group = all_scoped && not (is_nil allowed) in
    let reason =
      or_reason (role_reason s role permissions) (not global_allowed && not some_group) in
    let can_assign = is_clear reason in
    let is_assigned = includes assigned role.guid in
    record {
      guid = role.guid;
      protected_account = role.protected_account;
      assigned = is_assigned;
      can_assign = can_assign;
      can_remove = is_assigned && can_assign;
      reason_code = reason;
      allowed_scope_types =
          if can_assign
          then (if global_allowed
              then global ∷ (if some_group then device_group ∷ [] else [])
              else if some_group
              then device_group ∷ []
              else [])
          else [];
      assignable_device_groups =
          if can_assign && all_scoped then filter (includes allowed) guids else [];
    }

abbrev pub found_user : Option User → Checks User
found_user none = throw (denied (not_found "User does not exist"))
found_user (some u) = pure u

-- The caller's scopes of the assignable permissions; an owner needs none.
module _ (db : Database) where
  unfoldable pub caller_scopes : Bool → String → Checks CallerScopes
  caller_scopes owner actor_guid = branch owner (pure (λ code. none)) (do
    grants ← auth (get_effective_permissions db actor_guid)
    pure (λ code. if is_assignable_permission_code code then grants.scopes code else none))

  -- `roles` and `groups` are all roles and all device groups.
  unfoldable pub get_role_eligibility :
      List Role → List DeviceGroup → String → String → Checks (List Eligibility)
  get_role_eligibility roles groups user_guid actor_guid = do
    target ← found_user (db.find_user user_guid)
    actor ← auth (get_current_user db actor_guid)
    scopes ← caller_scopes actor.is_admin actor_guid
    let rows = if is_nil roles then [] else db.find_role_permissions (map (λ r. r.guid) roles)
    let assigned = map (λ a. a.assignment.role_guid) (load_assignments db user_guid)
    let situation : Situation = record {
      owner = actor.is_admin;
      self_target = user_guid == actor_guid;
      admin_target = target.is_admin;
      protected_target = compute_is_protected_user db false user_guid target.is_admin;
      scopes = scopes;
    }
    pure (map (eligibility situation groups assigned (group_permissions rows)) roles)
