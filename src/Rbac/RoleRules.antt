-- ===== src/Rbac/RoleRules.antt =====
-- modules/rbac/services/role.service.ts: roles as they are requested, stored and shown, and what
-- their names and permissions have to be.
use rustdesk_console.Common.{
  ℕ, String, Bool, false, not, ◌&&◌, Option, none, some, List, [], ◌∷◌, ◌++◌, map, ◌==◌, string_eq,
  if◌then◌else◌, filter, all, includes, unique,
}
use rustdesk_console.Common.Chars.{is_space}
use rustdesk_console.Common.Effects.{Result, ok, err}
use Prim.Native.Char.{code}
use rustdesk_console.Rbac.Catalog.{
  is_assignable_permission_code, is_device_group_scoped_permission, get_permission_requirements,
  sort,
}
use rustdesk_console.Rbac.Database.{Assignment}
use rustdesk_console.Rbac.Authorization.{AuthError, is_nil}

pub record StoredRole : Type 0 where
  pub guid : String
  pub name : String
  pub note : Option String
  pub protected_account : Bool

-- What `save` throws: the violation of a unique index, or anything else.
pub data SaveFailure : Type 0 where
  not_unique : SaveFailure
  other_failure : String → SaveFailure

-- What a call throws. A message that lists names is the text before them, and the names.
pub data EditError : Type 0 where
  denied : AuthError → EditError
  bad_request not_found conflict : String → EditError
  bad_names : String → List String → EditError
  bad_dependencies : List (String × String) → EditError
  still_assigned : ℕ → EditError
  save_failed : SaveFailure → EditError

pub record CreateRoleDto : Type 0 where
  pub name : String
  pub note : Option String
  pub permissions : List String
  pub protected_account : Option Bool

pub record UpdateRoleDto : Type 0 where
  pub name : Option String
  pub note : Option String
  pub permissions : Option (List String)
  pub protected_account : Option Bool
  pub confirm_protected_account_change : Option Bool

-- What the audit keeps of a role, and of an assignment that is deleted with it.
pub record RoleState : Type 0 where
  pub name : String
  pub note : Option String
  pub permissions : List String
  pub protected_account : Bool

pub record AssignmentState : Type 0 where
  pub assignment : Assignment
  pub device_group_guids : List String

pub data RoleEvent : Type 0 where
  role_create : (actor target : String) → RoleState → RoleEvent
  role_update : (actor target : String) → RoleState → RoleState → Option ℕ → RoleEvent
  role_delete : (actor target : String) → RoleState → List AssignmentState → RoleEvent

pub record RoleResponse : Type 0 where
  pub guid : String
  pub name : String
  pub note : String
  pub permissions : List String
  pub protected_account : Bool

pub record ProtectionImpact : Type 0 where
  pub guid : String
  pub protected_account : Bool
  pub affected_member_count : ℕ

abbrev trim_start : String → String
trim_start String.[] = ""
trim_start (String.◌∷◌ c s) = if is_space (code c) then trim_start s else String.◌∷◌ c s

abbrev trim_end : String → String
trim_end String.[] = ""
trim_end (String.◌∷◌ c s) =
    let rest = trim_end s in if is_space (code c) && (rest == "") then "" else String.◌∷◌ c rest

-- `s.trim()`.
abbrev pub trim : String → String
trim s = trim_end (trim_start s)

-- `note?.trim() || null`.
abbrev pub trimmed_note : Option String → Option String
trimmed_note none = none
trimmed_note (some s) = if trim s == "" then none else some (trim s)

abbrev pub flag : Option Bool → Bool
flag none = false
flag (some b) = b

unfoldable pub normalize_name : String → Result EditError String
normalize_name value =
    if trim value == "" then err (bad_request "Role name cannot be empty") else ok (trim value)

-- The requirements that are not among the permissions, each with the permission that has it.
abbrev pub missing_requirements : List String → List String → List (String × String)
missing_requirements granted [] = []
missing_requirements granted (p ∷ ps) =
    map (λ r. (p, r)) (filter (λ r. not (includes granted r)) (get_permission_requirements p))
    ++ missing_requirements granted ps

abbrev pub validated_codes : List String → List String
validated_codes permissions = sort (filter is_assignable_permission_code (unique permissions))

unfoldable pub validate_permissions : List String → Result EditError (List String)
validate_permissions permissions =
    let system_only = filter (λ p. not (is_assignable_permission_code p)) (unique permissions) in
    let missing =
      missing_requirements (validated_codes permissions) (validated_codes permissions) in
    if not (is_nil system_only)
    then err (bad_names "Permission code cannot be assigned: " system_only)
    else (if not (is_nil missing)
        then err (bad_dependencies missing)
        else ok (validated_codes permissions))

abbrev pub scoped_message : String
scoped_message =
    "Roles with advanced scope grants can only contain device operations and strategies.assign"

-- The role's permissions may stand beside an assignment for device groups.
abbrev pub may_be_scoped : List String → Bool
may_be_scoped permissions =
    not (is_nil permissions) && all is_device_group_scoped_permission permissions
