-- ===== src/Rbac/Delegation.antt =====
-- modules/rbac/services/user-role.service.ts: replacing the roles of a user, with the checks before
-- the transaction and those in it. The writes of the transaction are calls of the object-relational
-- mapper, a parameter.
pub mod Replacement
pub mod Bounds
pub mod Outcome
pub mod Passed
pub mod Stored
mod Tests
use rustdesk_console.Common.{
  ℕ, suc, String, Bool, true, false, not, ◌&&◌, ◌||◌, Option, none, some, List, [], ◌∷◌, ◌++◌, map,
  ◌==◌, string_eq, nat_eq, if◌then◌else◌, filter, any, all, find?, includes, unique, length, lookup,
  put,
}
use rustdesk_console.Common.Effects.{
  M, Result, ok, err, pure, throw, get, modify, branch, when, ◌>>=◌, ◌>>◌,
}
use rustdesk_console.Rbac.Catalog.{is_device_group_scoped_permission}
use rustdesk_console.Rbac.Database.{
  User, Assignment, AssignmentScope, AssignmentGroup, Role, RolePermission, DeviceGroup, Database,
}
use rustdesk_console.Rbac.Authorization.{
  AuthError, not_found, forbidden, DeniedEvent, is_nil, is_global, is_group, get_current_user,
  require_permission,
}
use rustdesk_console.Rbac.Protection.{compute_is_protected_user}
use rustdesk_console.Rbac.Effective.{EffectivePermissionScope, get_effective_permissions}
use rustdesk_console.Rbac.Roles.{
  RoleError, denied, bad_request, bad_names, missing_names, forbidden_name, UserRoleAssignmentDto,
  NormalizedAssignment, validate_assignments, group_permissions, LoadedAssignment, load_assignments,
  Scopes, effective_scopes,
}
use rustdesk_console.Rbac.Eligibility.{
  Checks, auth, CallerScopes, Eligibility, found_user, get_role_eligibility,
}

abbrev pub role_guids : List NormalizedAssignment → List String
role_guids requested = map (λ a. a.role_guid) requested

abbrev pub refuse : Bool → RoleError → Checks (Unit {0})
refuse b e = when b (throw e)

-- What is proposed for a permission: everywhere, or for groups.
pub record Grant : Type 0 where
  pub global : Bool
  pub groups : List String

abbrev pub granted_before : Option Grant → Grant
granted_before none = record { global = false; groups = [] }
granted_before (some g) = g

abbrev pub extended : NormalizedAssignment → Grant → Grant
extended a g =
    if is_global a.scope_type
    then record { global = true; groups = g.groups }
    else record { global = g.global; groups = g.groups ++ a.device_group_guids }

abbrev pub Proposed : Type 0
Proposed = List (String × Grant)

abbrev pub propose_each : NormalizedAssignment → List String → Proposed → Proposed
propose_each a [] m = m
propose_each a (p ∷ ps) m = propose_each a ps (put p (extended a (granted_before (lookup p m))) m)

unfoldable pub propose : (String → List String) → List NormalizedAssignment → Proposed → Proposed
propose permissions_of [] m = m
propose permissions_of (a ∷ as') m =
    propose permissions_of as' (propose_each a (permissions_of a.role_guid) m)

abbrev pub exceeds_scope : Option EffectivePermissionScope → Grant → Bool
exceeds_scope none g = true
exceeds_scope (some s) g =
    g.global && not s.global
    || (not g.global && (not s.global && not (all (includes s.device_group_guids) g.groups)))

abbrev pub exceeds : CallerScopes → String × Grant → Bool
exceeds scopes (p, g) = exceeds_scope (scopes p) g

abbrev pub refuse_exceeding : Option (String × Grant) → Checks (Unit {0})
refuse_exceeding none = pure tt
refuse_exceeding (some (p, g)) =
    throw (forbidden_name "Role permissions exceed the operator scope: " p)

abbrev pub carries_wrong_permission : (String → List String) → NormalizedAssignment → Bool
carries_wrong_permission permissions_of a =
    is_group a.scope_type
    && (is_nil (permissions_of a.role_guid)
        || any (λ p. not (is_device_group_scoped_permission p)) (permissions_of a.role_guid))

abbrev pub refuse_found : {A : Type 0} → (A → String) → String → Option A → Checks (Unit {0})
refuse_found name text none = pure tt
refuse_found name text (some a) = throw (forbidden_name text (name a))

-- The device groups that the request names.
abbrev pub group_guids_of : List NormalizedAssignment → List String
group_guids_of requested = unique (flat requested)
  where
    flat : List NormalizedAssignment → List String
    flat [] = []
    flat (a ∷ as') = a.device_group_guids ++ flat as'

module _ (db : Database) where
  abbrev pub rows_of : List String → List RolePermission
  rows_of guids = if is_nil guids then [] else db.find_role_permissions guids

  abbrev pub roles_of : List String → List Role
  roles_of guids = if is_nil guids then [] else db.find_roles guids

  unfoldable pub check_roles_exist : List String → Checks (Unit {0})
  check_roles_exist guids =
      let roles = roles_of guids in
      refuse (not (length roles == length guids)) (
        missing_names "Role not found: "
          (filter (λ g. not (includes (map (λ r. r.guid) roles) g)) guids))

  unfoldable pub check_group_scopes : List NormalizedAssignment → Checks (Unit {0})
  check_group_scopes requested =
      refuse
        (any (carries_wrong_permission (group_permissions (rows_of (role_guids requested))))
          requested)
        (bad_request "device_group scope only supports device actions and strategies.assign")

  unfoldable pub check_groups_exist : List NormalizedAssignment → Checks (Unit {0})
  check_groups_exist requested =
      let guids = group_guids_of requested in
      let groups = if is_nil guids then [] else db.find_device_groups guids in
      refuse (not (length groups == length guids)) (
        bad_names "Device group not found: "
          (filter (λ g. not (includes (map (λ g. g.guid) groups) g)) guids))

  unfoldable pub check_scope : String → List NormalizedAssignment → Checks (Unit {0})
  check_scope actor_guid requested = do
    caller ← auth (get_effective_permissions db actor_guid)
    refuse_exceeding (
        find? (exceeds caller.scopes)
          (propose (group_permissions (rows_of (role_guids requested))) requested []))

  -- Nobody but an owner changes roles without the permission to.
  unfoldable pub check_actor : String → Checks Bool
  check_actor actor_guid = do
    actor ← auth (get_current_user db actor_guid)
    when (not actor.is_admin)
        (do scope ← auth (require_permission db actor_guid "roles.assign"); pure tt)
    pure actor.is_admin

  unfoldable pub check_target : String → Checks User
  check_target user_guid = do
    target ← found_user (db.find_user user_guid)
    refuse target.is_admin
        (denied (forbidden "Super administrators cannot be assigned regular roles"))
    pure target
