-- ===== src/Rbac/Roles.antt =====
-- modules/rbac/services/user-role.service.ts: the roles of a user, as they are requested, stored and
-- shown.
use rustdesk_console.Common.{
  String, Bool, true, false, not, ◌&&◌, Option, none, some, List, [], ◌∷◌, ◌++◌, map, ◌==◌,
  string_eq, if◌then◌else◌, filter, find?, includes, unique, lookup, put,
}
use rustdesk_console.Common.Effects.{Result, ok, err}
use rustdesk_console.Common.Results.{◌>>=◌, ◌>>◌}
use rustdesk_console.Rbac.Catalog.{
  is_assignable_permission_code, is_device_group_scoped_permission,
  filter_effective_permission_codes, sort,
}
use rustdesk_console.Rbac.Database.{
  AssignmentScope, Assignment, AssignmentGroup, Role, RolePermission, Database,
}
use rustdesk_console.Rbac.Authorization.{AuthError, is_global, is_group, is_nil, codes_of_role}
use rustdesk_console.Rbac.Effective.{EffectivePermissionScope, everywhere_scope}

-- What a call throws. A message that lists names is the text before them, and the names.
pub data RoleError : Type 0 where
  denied : AuthError → RoleError
  bad_request : String → RoleError
  bad_names : String → List String → RoleError
  missing_names : String → List String → RoleError
  forbidden_name : String → String → RoleError

pub record UserRoleAssignmentDto : Type 0 where
  pub role_guid : String
  pub scope_type : AssignmentScope
  pub device_group_guids : Option (List String)

pub record NormalizedAssignment : Type 0 where
  pub role_guid : String
  pub scope_type : AssignmentScope
  pub device_group_guids : List String

abbrev pub or_nil : Option (List String) → List String
or_nil none = []
or_nil (some l) = l

abbrev pub refuse_if : Bool → RoleError → Result RoleError (Unit {0})
refuse_if true e = err e
refuse_if false e = ok tt

-- One request, after the roles that have been seen.
unfoldable pub validate_assignment :
    List String → UserRoleAssignmentDto → Result RoleError NormalizedAssignment
validate_assignment seen dto = do
  refuse_if (includes seen dto.role_guid)
      (bad_request "The same user cannot be assigned duplicate roles")
  let groups = unique (or_nil dto.device_group_guids)
  refuse_if (is_group dto.scope_type && is_nil groups)
      (bad_request "device_group scope requires at least one device group")
  refuse_if (is_global dto.scope_type && not (is_nil groups))
      (bad_request "global scope cannot include device groups")
  ok (record {
    role_guid = dto.role_guid;
    scope_type = dto.scope_type;
    device_group_guids = if is_group dto.scope_type then groups else [];
  })

unfoldable pub validate_from :
    List String → List UserRoleAssignmentDto → Result RoleError (List NormalizedAssignment)
validate_from seen [] = ok []
validate_from seen (dto ∷ dtos) = do
  a ← validate_assignment seen dto
  as' ← validate_from (dto.role_guid ∷ seen) dtos
  ok (a ∷ as')

abbrev pub validate_assignments :
    List UserRoleAssignmentDto → Result RoleError (List NormalizedAssignment)
validate_assignments = validate_from []

-- `groupPermissions(rows).get(role) || []`.
unfoldable pub group_permissions : List RolePermission → String → List String
group_permissions rows role =
    filter_effective_permission_codes
      (codes_of_role (filter (λ r. is_assignable_permission_code r.permission_code) rows) role)

pub record LoadedAssignment : Type 0 where
  pub assignment : Assignment
  pub role : Option Role
  pub permissions : List String
  pub group_guids : List String

abbrev pub groups_of_assignment : List AssignmentGroup → String → List String
groups_of_assignment rows guid =
    map (λ g. g.device_group_guid) (filter (λ g. g.assignment_guid == guid) rows)

abbrev pub loaded :
    List Role → List RolePermission → List AssignmentGroup → Assignment → LoadedAssignment
loaded roles rows groups a = record {
  assignment = a;
  role = find? (λ r. r.guid == a.role_guid) roles;
  permissions =
      if is_group a.scope_type
      then filter is_device_group_scoped_permission (group_permissions rows a.role_guid)
      else group_permissions rows a.role_guid;
  group_guids = if is_group a.scope_type then sort (groups_of_assignment groups a.guid) else [];
}

module _ (db : Database) where
  unfoldable pub load_assignments : String → List LoadedAssignment
  load_assignments user_guid =
      let assignments = db.find_assignments (user_guid ∷ []) in
      let role_guids = unique (map (λ a. a.role_guid) assignments) in
      if is_nil assignments
      then []
      else map
          (loaded (db.find_roles role_guids) (db.find_role_permissions role_guids)
            (db.find_assignment_groups (map (λ a. a.guid) assignments)))
          assignments

abbrev pub Scopes : Type 0
Scopes = List (String × EffectivePermissionScope)

abbrev pub merged : Option EffectivePermissionScope → LoadedAssignment → EffectivePermissionScope
merged none a =
    if is_global a.assignment.scope_type
    then everywhere_scope
    else record { global = false; device_group_guids = a.group_guids }
merged (some s) a =
    if s.global then s else if is_global a.assignment.scope_type then everywhere_scope else record {
      global = false;
      device_group_guids = sort (unique (s.device_group_guids ++ a.group_guids));
    }

abbrev pub scopes_with : LoadedAssignment → List String → Scopes → Scopes
scopes_with a [] m = m
scopes_with a (p ∷ ps) m =
    scopes_with a ps
      (if is_assignable_permission_code p then put p (merged (lookup p m) a) m else m)

unfoldable pub effective_scopes : List LoadedAssignment → Scopes → Scopes
effective_scopes [] m = m
effective_scopes (a ∷ as') m = effective_scopes as' (scopes_with a a.permissions m)
