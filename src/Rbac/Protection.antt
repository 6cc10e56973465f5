-- ===== src/Rbac/Protection.antt =====
-- modules/rbac/services/rbac-authorization.service.ts: the accounts that only a super administrator
-- may change (owners, and holders of a protected role), and the checks before such a change.
pub mod Laws
use rustdesk_console.Common.{
  ℕ, String, Bool, true, false, not, ◌&&◌, ◌||◌, Option, none, some, List, [], ◌∷◌, ◌++◌, map, ◌==◌,
  string_eq, nat_eq, if◌then◌else◌, filter, any, all, find?, includes, unique, length, Eq, lookup,
  put,
}
use rustdesk_console.Common.Effects.{
  M, Result, ok, err, pure, throw, catching, branch, when, ◌>>=◌, ◌>>◌,
}
use rustdesk_console.Rbac.Database.{User, Assignment, Role, Peer, DeviceGroup, Database}
use rustdesk_console.Rbac.Authorization.{
  AuthError, unauthorized, forbidden, not_found, Auth, PermissionScope, is_nil, reject_with_audit,
  is_outside, require_super_admin, require_permission, unless_denied, denied_peer,
}

abbrev pub ProtectionMap : Type 0
ProtectionMap = List (String × Bool)

abbrev pub mark_owners : List User → ProtectionMap → ProtectionMap
mark_owners [] m = m
mark_owners (u ∷ us) m = mark_owners us (if u.is_admin then put u.guid true m else m)

abbrev pub mark_holders : List String → List Assignment → ProtectionMap → ProtectionMap
mark_holders roles [] m = m
mark_holders roles (a ∷ as') m =
    mark_holders roles as' (if includes roles a.role_guid then put a.user_guid true m else m)

abbrev pub mark_all : List String → ProtectionMap → ProtectionMap
mark_all [] m = m
mark_all (g ∷ gs) m = mark_all gs (put g true m)

-- The keys of the entries that are true.
abbrev pub protected_keys : ProtectionMap → List String
protected_keys [] = []
protected_keys ((g, b) ∷ m) = if b then g ∷ protected_keys m else protected_keys m

abbrev pub found_target : Option User → Auth User
found_target none = throw (not_found "User does not exist")
found_target (some u) = pure u

-- The owner can be neither disabled nor deleted.
unfoldable pub assert_system_owner_is_not_removed : User → String → Auth (Unit {0})
assert_system_owner_is_not_removed target code =
    branch (target.is_admin && ((code == "users.status") || (code == "users.delete")))
      (throw (forbidden "The system owner account cannot be disabled or deleted")) (pure tt)

-- The loop over the targets stops at the first owner.
unfoldable pub assert_no_owner_is_removed : List User → String → Auth (Unit {0})
assert_no_owner_is_removed [] code = pure tt
assert_no_owner_is_removed (u ∷ us) code = do
  assert_system_owner_is_not_removed u code
  assert_no_owner_is_removed us code

module _ (db : Database) where
  -- `in_transaction` says whether an entity manager is given: only then is the user read again.
  unfoldable pub compute_is_protected_user : Bool → String → Bool → Bool
  compute_is_protected_user in_transaction user_guid is_admin =
      let read = if in_transaction then db.find_user user_guid else none in
      let assignments = db.find_assignments (user_guid ∷ []) in
      if is_owner read || (not in_transaction && is_admin)
      then true
      else if is_nil assignments
      then false
      else any (λ r. r.protected_account)
          (db.find_roles (unique (map (λ a. a.role_guid) assignments)))
    where
      is_owner : Option User → Bool
      is_owner none = false
      is_owner (some u) = u.is_admin

  unfoldable pub get_effective_protection_map : List String → ProtectionMap
  get_effective_protection_map user_guids =
      let asked = unique user_guids in
      let start = map (λ g. (g, false)) asked in
      let with_owners = mark_owners (db.find_users asked) start in
      let assignments = db.find_assignments asked in
      let roles = db.find_protected_roles (unique (map (λ a. a.role_guid) assignments)) in
      if is_nil asked
      then start
      else if is_nil assignments
      then with_owners
      else mark_holders (map (λ r. r.guid) roles) assignments with_owners

  unfoldable pub get_protected_user_guids : List String → List String → List String
  get_protected_user_guids user_guids known_owners =
      protected_keys (mark_all known_owners (get_effective_protection_map user_guids))

  -- A change of a protected account is for a super administrator; its refusal is audited.
  unfoldable pub require_super_admin_for : String → String → Auth (Unit {0})
  require_super_admin_for actor target =
      catching (do user ← require_super_admin db actor; pure tt)
        (reject_with_audit actor "user" (some target) "super_admin")

  unfoldable pub assert_user_mutation : Bool → String → String → String → Auth (Unit {0})
  assert_user_mutation in_transaction actor target_guid code = do
    scope ← require_permission db actor code
    target ← found_target (db.find_user target_guid)
    assert_system_owner_is_not_removed target code
    when (compute_is_protected_user in_transaction target_guid target.is_admin)
        (require_super_admin_for actor target_guid)

  abbrev pub check_protected : Option User → String → Auth (Unit {0})
  check_protected none actor = pure tt
  check_protected (some u) actor = require_super_admin_for actor u.guid

  -- The first of the users that is protected.
  unfoldable pub first_protected : List User → Option User
  first_protected users =
      let guids =
        get_protected_user_guids (map (λ u. u.guid) users)
          (map (λ u. u.guid) (filter (λ u. u.is_admin) users)) in
      find? (λ u. includes guids u.guid) users

  unfoldable pub assert_users_mutation : String → List String → String → Auth (Unit {0})
  assert_users_mutation actor target_guids code = do
    scope ← require_permission db actor code
    let asked = unique target_guids
    let users = db.find_users asked
    branch (is_nil asked) (pure tt)
        (do assert_no_owner_is_removed users code; check_protected (first_protected users) actor)

  abbrev pub head_or_null : List String → Option String
  head_or_null [] = none
  head_or_null (g ∷ gs) = if g == "" then none else some g

  unfoldable pub assert_user_targets : String → List String → PermissionScope → Auth PermissionScope
  assert_user_targets actor target_guids scope =
      let users = db.find_users (unique target_guids) in
      branch (not scope.global)
        (reject_with_audit actor "user" (head_or_null target_guids) "strategies.assign"
          (forbidden "Assigning strategies by user requires global permission"))
        (branch (not (length users == length (unique target_guids)))
          (throw (not_found "User does not exist"))
          (do check_protected (first_protected users) actor; pure scope))

  abbrev pub unless_denied_group :
      Option DeviceGroup → String → PermissionScope → Auth PermissionScope
  unless_denied_group none actor scope = pure scope
  unless_denied_group (some g) actor scope = branch (g.guid == "") (pure scope) (
      reject_with_audit actor "device_group" (some g.guid) "strategies.assign"
        (forbidden "Target device group is outside the authorized scope"))

  unfoldable pub assert_group_targets :
      String → List String → PermissionScope → Auth PermissionScope
  assert_group_targets actor target_guids scope = branch scope.global (pure scope) (
      unless_denied_group
        (find? (λ g. not (includes scope.device_group_guids g.guid))
          (db.find_device_groups (unique target_guids)))
        actor scope)

  unfoldable pub assert_device_targets :
      String → List String → PermissionScope → Auth PermissionScope
  assert_device_targets actor target_guids scope =
      unless_denied (denied_peer scope (db.find_peers (unique target_guids))) actor
        "strategies.assign" "Target device is not in an authorized device group" (pure scope)

pub data TargetType : Type 0 where
  device user device_group : TargetType

module _ (db : Database) where
  abbrev pub assert_targets :
      TargetType → String → List String → PermissionScope → Auth PermissionScope
  assert_targets user = assert_user_targets db
  assert_targets device_group = assert_group_targets db
  assert_targets device = assert_device_targets db

  unfoldable pub assert_strategy_targets : String → TargetType → List String → Auth PermissionScope
  assert_strategy_targets actor target_type target_guids = do
    scope ← require_permission db actor "strategies.assign"
    assert_targets target_type actor target_guids scope

-- Everything that the checks of accounts compute with.
unfoldable pub protection_opened : Unit {0}
unfolding assert_system_owner_is_not_removed assert_no_owner_is_removed compute_is_protected_user
    get_effective_protection_map get_protected_user_guids require_super_admin_for
    assert_user_mutation first_protected assert_users_mutation assert_user_targets
    assert_group_targets assert_device_targets assert_strategy_targets
protection_opened = tt
