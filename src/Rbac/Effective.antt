-- ===== src/Rbac/Effective.antt =====
-- modules/rbac/services/rbac-authorization.service.ts: all permissions of a user at once, each with
-- its scope.
pub mod Agreement
use rustdesk_console.Common.{
  String, Bool, true, false, not, ◌&&◌, Option, none, some, List, [], map, ◌==◌, string_eq,
  if◌then◌else◌, filter, any, includes, unique,
}
use rustdesk_console.Common.Effects.{pure, ◌>>=◌}
use rustdesk_console.Rbac.Catalog.{permission_catalog, is_device_group_scoped_permission, sort}
use rustdesk_console.Rbac.Database.{Assignment, AssignmentGroup, Database}
use rustdesk_console.Rbac.Authorization.{
  Auth, EffectiveRoleGrants, is_global, is_group, is_nil, load_effective_role_grants,
  get_current_user,
}

-- `{ scope_type, device_group_guids }`, with the type as whether it is global.
pub record EffectivePermissionScope : Type 0 where
  pub global : Bool
  pub device_group_guids : List String

-- The scopes, as a map from permissions.
pub record EffectivePermissions : Type 0 where
  pub permissions : List String
  pub scopes : String → Option EffectivePermissionScope

abbrev pub everywhere_scope : EffectivePermissionScope
everywhere_scope = record { global = true; device_group_guids = [] }

abbrev pub catalog_codes : List String
catalog_codes = map (λ p. p.code) permission_catalog

-- The assignment brings the permission, unless its scope cannot carry it.
abbrev pub brings : EffectiveRoleGrants → String → Assignment → Bool
brings g code a =
    includes (g.effective a.role_guid) code
    && not (is_group a.scope_type && not (is_device_group_scoped_permission code))

-- It brings some permission for groups.
abbrev pub brings_scoped : EffectiveRoleGrants → Assignment → Bool
brings_scoped g a =
    not (is_global a.scope_type) && any (λ code. brings g code a) (g.effective a.role_guid)

abbrev pub ids_of : EffectiveRoleGrants → List AssignmentGroup → String → List String
ids_of g groups code = unique (
    map (λ r. r.device_group_guid)
      (filter
        (λ r.
          any
            (λ a.
              (a.guid == r.assignment_guid) && (not (is_global a.scope_type) && brings g code a))
            g.assignments)
        groups))

abbrev pub scope_entry : Bool → List String → Option EffectivePermissionScope
scope_entry global ids =
    if not global && is_nil ids
    then none
    else some (
        if global
        then everywhere_scope
        else record { global = false; device_group_guids = sort ids })

abbrev pub is_entry : Option EffectivePermissionScope → Bool
is_entry none = false
is_entry (some s) = true

module _ (db : Database) where
  unfoldable pub scope_of_grants : EffectiveRoleGrants → String → Option EffectivePermissionScope
  scope_of_grants g code =
      let scoped = filter (brings_scoped g) g.assignments in
      let groups =
        if is_nil scoped then [] else db.find_assignment_groups (map (λ a. a.guid) scoped) in
      scope_entry (any (λ a. is_global a.scope_type && brings g code a) g.assignments)
        (ids_of g groups code)

  abbrev pub permissions_of_user : String → Bool → EffectivePermissions
  permissions_of_user user_guid is_admin =
      if is_admin
      then record {
        permissions = catalog_codes;
        scopes = λ code. if includes catalog_codes code then some everywhere_scope else none;
      }
      else (let scopes = scope_of_grants (load_effective_role_grants db user_guid) in
          record {
            permissions = sort (filter (λ code. is_entry (scopes code)) (unique catalog_codes));
            scopes = scopes;
          })

  unfoldable pub get_effective_permissions : String → Auth EffectivePermissions
  get_effective_permissions user_guid = do
    user ← get_current_user db user_guid
    pure (permissions_of_user user_guid user.is_admin)
