-- ===== src/Rbac/Authorization.antt =====
-- modules/rbac/services/rbac-authorization.service.ts: who may do what, and to which devices, users
-- and groups. A call returns or throws, and has handed denied attempts to the audit service; the
-- request's cache of these lookups is left out.
pub mod Scope
pub mod Access
use rustdesk_console.Common.{
  ℕ, String, Bool, true, false, not, ◌&&◌, ◌||◌, Option, none, some, List, [], ◌∷◌, ◌++◌, map, ◌==◌,
  string_eq, nat_eq, if◌then◌else◌, filter, any, all, find?, includes, unique, length, Eq,
}
use rustdesk_console.Common.Effects.{
  M, Result, ok, err, pure, throw, catching, modify, branch, when, ◌>>=◌, ◌>>◌,
}
use rustdesk_console.Rbac.Catalog.{
  is_assignable_permission_code, is_device_group_scoped_permission,
  filter_effective_permission_codes,
}
use rustdesk_console.Rbac.Database.{
  UserStatus, disabled, active, unverified, User, AssignmentScope, global, device_group,
  other_scope, Assignment, RolePermission, AssignmentGroup, Role, Peer, DeviceGroup, Database,
}

pub data AuthError : Type 0 where
  unauthorized forbidden not_found : String → AuthError

abbrev pub message : AuthError → String
message (unauthorized m) = m
message (forbidden m) = m
message (not_found m) = m

-- What `recordDenied` is called with.
pub record DeniedEvent : Type 0 where
  pub actor_user_guid : String
  pub target_type : String
  pub target_guid : Option String
  pub action : String
  pub reason : String

abbrev pub Auth : Type 0 → Type 0
Auth A = M (List DeniedEvent) AuthError A

pub record PermissionScope : Type 0 where
  pub global : Bool
  pub device_group_guids : List String

abbrev pub everywhere : PermissionScope
everywhere = record { global = true; device_group_guids = [] }

abbrev pub nowhere : PermissionScope
nowhere = record { global = false; device_group_guids = [] }

-- Truth of a `string | null`.
abbrev pub truthy : Option String → Bool
truthy none = false
truthy (some s) = not (s == "")

abbrev pub holds_guid : List String → Option String → Bool
holds_guid guids none = false
holds_guid guids (some g) = includes guids g

abbrev pub is_active : UserStatus → Bool
is_active active = true
is_active _ = false

abbrev pub is_global : AssignmentScope → Bool
is_global global = true
is_global _ = false

abbrev pub is_group : AssignmentScope → Bool
is_group device_group = true
is_group _ = false

abbrev pub is_nil {ℓ} : {A : Type ℓ} → List A → Bool
is_nil [] = true
is_nil (x ∷ xs) = false

unfoldable pub reject_with_audit :
    {A : Type 0} → String → String → Option String → String → AuthError → Auth A
reject_with_audit actor target_type target action error = do
  modify (λ events.
      record {
        actor_user_guid = actor;
        target_type = target_type;
        target_guid = target;
        action = action;
        reason = message error;
      }
      ∷ events)
  throw error

-- The assignments of a user, and what each role grants, as `effectivePermissionsByRole.get(role)`.
pub record EffectiveRoleGrants : Type 0 where
  pub assignments : List Assignment
  pub effective : String → List String

abbrev pub codes_of_role : List RolePermission → String → List String
codes_of_role rows role = map (λ r. r.permission_code) (filter (λ r. r.role_guid == role) rows)

-- Is the device in one of the scope's groups?
abbrev pub is_outside : PermissionScope → Peer → Bool
is_outside scope peer =
    not (truthy peer.device_group_guid)
    || not (holds_guid scope.device_group_guids peer.device_group_guid)

abbrev pub current_user : Option User → Auth User
current_user none = throw (unauthorized "Account does not exist or has been disabled")
current_user (some user) =
    branch (is_active user.status) (pure user)
      (throw (unauthorized "Account does not exist or has been disabled"))

-- The assignments that grant a permission.
abbrev pub grants : EffectiveRoleGrants → String → Assignment → Bool
grants g code a =
    includes (g.effective a.role_guid) code
    && (is_global a.scope_type || is_device_group_scoped_permission code)

abbrev pub found_peer : Option Peer → Auth Peer
found_peer none = throw (not_found "Device not found")
found_peer (some p) = pure p

abbrev pub unless_denied : {A : Type 0} → Option Peer → String → String → String → Auth A → Auth A
unless_denied none user_guid action reason rest = rest
unless_denied (some peer) user_guid action reason rest =
    reject_with_audit user_guid "device" (some peer.uuid) action (forbidden reason)

-- The first peer outside the scope, unless the scope is global.
abbrev pub denied_peer : PermissionScope → List Peer → Option Peer
denied_peer scope peers = if scope.global then none else find? (is_outside scope) peers

module _ (db : Database) where
  unfoldable pub get_current_user : String → Auth User
  get_current_user user_guid = current_user (db.find_user user_guid)

  unfoldable pub require_super_admin : String → Auth User
  require_super_admin user_guid = do
    user ← get_current_user user_guid
    branch user.is_admin (pure user) (throw (forbidden "Super administrator permission required"))

  unfoldable pub load_effective_role_grants : String → EffectiveRoleGrants
  load_effective_role_grants user_guid =
      let assignments =
        filter (λ a. is_global a.scope_type || is_group a.scope_type)
          (db.find_assignments (user_guid ∷ [])) in
      let rows =
        if is_nil assignments
        then []
        else db.find_role_permissions (map (λ a. a.role_guid) assignments) in
      record {
        assignments = assignments;
        effective = λ role. filter_effective_permission_codes (codes_of_role rows role);
      }

  unfoldable pub granted_scope : EffectiveRoleGrants → String → PermissionScope
  granted_scope g code =
      let matching = filter (grants g code) g.assignments in
      let scoped = filter (λ a. is_group a.scope_type) matching in
      if any (λ a. is_global a.scope_type) matching
      then everywhere
      else if is_nil scoped
      then nowhere
      else record {
        global = false;
        device_group_guids =
            unique (
              map (λ g. g.device_group_guid)
                (db.find_assignment_groups (map (λ a. a.guid) scoped)));
      }

  unfoldable pub compute_permission_scope : String → String → Auth PermissionScope
  compute_permission_scope user_guid code = do
    user ← get_current_user user_guid
    branch (user.is_admin || not (is_assignable_permission_code code))
        (pure (record { global = user.is_admin; device_group_guids = [] }))
        (pure (granted_scope (load_effective_role_grants user_guid) code))

  unfoldable pub require_permission : String → String → Auth PermissionScope
  require_permission user_guid code =
      branch (not (is_assignable_permission_code code)) (throw (forbidden "Unknown permission")) (do
        scope ← compute_permission_scope user_guid code
        branch (not scope.global && is_nil scope.device_group_guids)
            (throw (forbidden "Access denied")) (pure scope))

  unfoldable pub assert_device_access : String → String → String → Auth (Peer × PermissionScope)
  assert_device_access user_guid code device_uuid = do
    scope ← require_permission user_guid code
    peer ← found_peer (db.find_peer device_uuid)
    branch (not scope.global && is_outside scope peer)
        (reject_with_audit user_guid "device" (some device_uuid) code
          (forbidden "Device is not in an authorized device group"))
        (pure (peer, scope))

  unfoldable pub assert_devices_access :
      String → String → List String → Auth (List Peer × PermissionScope)
  assert_devices_access user_guid code device_uuids = do
    scope ← require_permission user_guid code
    let asked = unique device_uuids
    let peers = db.find_peers asked
    branch (is_nil asked) (pure ([], scope)) (
        unless_denied (denied_peer scope peers) user_guid code
          "Batch request contains unauthorized devices" (pure (peers, scope)))

-- Everything that the checks compute with, down to the scope of a permission.
unfoldable pub opened : Unit {0}
unfolding assert_device_access assert_devices_access require_permission compute_permission_scope
    get_current_user require_super_admin reject_with_audit pure throw modify branch when catching
    ◌>>=◌
opened = tt

-- And the roles that a scope comes from.
unfoldable pub grants_opened : Unit {0}
unfolding opened granted_scope load_effective_role_grants
grants_opened = tt
