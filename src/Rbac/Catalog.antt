-- ===== src/Rbac/Catalog.antt =====
-- modules/rbac/constants/permission-catalog.ts: the permissions that roles can be made of, what
-- each of them requires, and which of a role's codes take effect.
pub mod Laws
use Prim.Native.Nat.{Ordering}
use Prim.Native.String
use Prim.Native.String.{compare}
use rustdesk_console.Common.{
  String, Bool, true, false, Option, none, some, List, [], ◌∷◌, map, if◌then◌else◌, ◌==◌, string_eq,
  filter, any, all, find?, includes, unique, ◌&&◌, Eq,
}

pub data Scope : Type 0 where
  global device_group : Scope

pub record PermissionDefinition : Type 0 where
  pub code : String
  pub resource : String
  pub action : String
  pub name : String
  pub description : String
  pub scope : Scope
  pub assignable : Bool
  pub system_only : Bool
  pub requires : Option (List String)

-- `${name} (${code})`
abbrev described : String → String → String
described name code = String.◌++◌ name (String.◌++◌ " (" (String.◌++◌ code ")"))

abbrev pub if_any : List String → Option (List String)
if_any [] = none
if_any (r ∷ rs) = some (r ∷ rs)

unfoldable pub definition :
    (code resource action name : String) → Scope → List String → PermissionDefinition
definition code resource action name scope requires = record {
  code = code;
  resource = resource;
  action = action;
  name = name;
  description = described name code;
  scope = scope;
  assignable = true;
  system_only = false;
  requires = if_any requires;
}

unfoldable pub system_definition : (code action name : String) → PermissionDefinition
system_definition code action name = record {
  code = code;
  resource = "roles";
  action = action;
  name = name;
  description = described name code;
  scope = global;
  assignable = false;
  system_only = true;
  requires = none;
}

unfoldable pub permission_catalog : List PermissionDefinition
unfolding definition system_definition
permission_catalog =
    definition "web_client.connect" "web_client" "connect" "Use web remote control" device_group []
    ∷ definition "web_client.file_transfer" "web_client" "file_transfer" "Use web file channel"
        device_group ("web_client.connect" ∷ [])
    ∷ definition "servers.view" "servers" "view" "View servers" global []
    ∷ definition "servers.control" "servers" "control" "Control server services" global
        ("servers.view" ∷ [])
    ∷ definition "servers.config" "servers" "config" "Configure servers" global
        ("servers.view" ∷ [])
    ∷ definition "servers.disconnect" "servers" "disconnect" "Disconnect relay sessions" global
        ("servers.view" ∷ [])
    ∷ definition "servers.ban" "servers" "ban" "Manage server bans" global ("servers.view" ∷ [])
    ∷ definition "users.view" "users" "view" "View users" global []
    ∷ definition "users.create" "users" "create" "Create users" global ("users.view" ∷ [])
    ∷ definition "users.edit" "users" "edit" "Edit users" global ("users.view" ∷ [])
    ∷ definition "users.status" "users" "status" "Change user status" global ("users.view" ∷ [])
    ∷ definition "users.delete" "users" "delete" "Delete users" global ("users.view" ∷ [])
    ∷ definition "users.security" "users" "security" "Manage user security" global
        ("users.view" ∷ [])
    ∷ definition "users.force_logout" "users" "force_logout" "Force user logout" global
        ("users.view" ∷ [])
    ∷ definition "user_groups.view" "user_groups" "view" "View user groups" global []
    ∷ definition "user_groups.create" "user_groups" "create" "Create user groups" global
        ("user_groups.view" ∷ [])
    ∷ definition "user_groups.edit" "user_groups" "edit" "Edit user groups" global
        ("user_groups.view" ∷ [])
    ∷ definition "user_groups.delete" "user_groups" "delete" "Delete user groups" global
        ("user_groups.view" ∷ [])
    ∷ definition "user_groups.membership" "user_groups" "membership" "Manage user group membership"
        global ("user_groups.view" ∷ [])
    ∷ definition "devices.view" "devices" "view" "View devices" device_group []
    ∷ definition "devices.edit" "devices" "edit" "Edit device metadata" device_group
        ("devices.view" ∷ [])
    ∷ definition "devices.status" "devices" "status" "Change device status" device_group
        ("devices.view" ∷ [])
    ∷ definition "devices.delete" "devices" "delete" "Delete devices" device_group
        ("devices.view" ∷ [])
    ∷ definition "devices.disconnect" "devices" "disconnect" "Disconnect devices" device_group
        ("devices.view" ∷ [])
    ∷ definition "address_books.view" "address_books" "view" "View address books" global []
    ∷ definition "address_books.edit" "address_books" "edit" "Edit address books" global
        ("address_books.view" ∷ [])
    ∷ definition "address_books.share" "address_books" "share" "Share address books" global
        ("address_books.view" ∷ [])
    ∷ definition "strategies.view" "strategies" "view" "View strategies" global []
    ∷ definition "strategies.create" "strategies" "create" "Create strategies" global
        ("strategies.view" ∷ [])
    ∷ definition "strategies.edit" "strategies" "edit" "Edit strategies" global
        ("strategies.view" ∷ [])
    ∷ definition "strategies.delete" "strategies" "delete" "Delete strategies" global
        ("strategies.view" ∷ [])
    ∷ definition "strategies.assign" "strategies" "assign" "Assign strategies" device_group []
    ∷ definition "audit.view" "audit" "view" "View audit data" global []
    ∷ system_definition "roles.create" "create" "Create roles"
    ∷ system_definition "roles.edit" "edit" "Edit roles"
    ∷ system_definition "roles.delete" "delete" "Delete roles"
    ∷ definition "roles.view" "roles" "view" "View roles" global []
    ∷ definition "roles.assign" "roles" "assign" "Assign roles" global
        ("roles.view" ∷ "users.view" ∷ [])
    ∷ definition "dashboard.view" "dashboard" "view" "View dashboard" global []
    ∷ []

unfoldable pub permission_codes : List String
permission_codes = map (λ item. item.code) (filter (λ item. item.assignable) permission_catalog)

abbrev pub is_group_scope : Scope → Bool
is_group_scope device_group = true
is_group_scope global = false

unfoldable pub is_device_group_scoped_permission : String → Bool
is_device_group_scoped_permission code =
    any (λ permission. (permission.code == code) && is_group_scope permission.scope)
      permission_catalog

unfoldable pub is_assignable_permission_code : String → Bool
is_assignable_permission_code code = includes permission_codes code

abbrev pub or_none : Option (List String) → List String
or_none none = []
or_none (some rs) = rs

-- The `requires` of the definition that a map from the assignable codes holds.
abbrev requirements_of : Option PermissionDefinition → List String
requirements_of none = []
requirements_of (some item) = or_none item.requires

unfoldable pub get_permission_requirements : String → List String
get_permission_requirements code =
    requirements_of
      (find? (λ item. item.code == code) (filter (λ item. item.assignable) permission_catalog))

-- `.sort()` of texts.
abbrev pub str_le : String → String → Bool
str_le a b = elim (compare a b) [ Ordering.gt ↦ false | _ ↦ true ]

abbrev pub insert_sorted : String → List String → List String
insert_sorted a [] = a ∷ []
insert_sorted a (b ∷ bs) = if str_le a b then a ∷ b ∷ bs else b ∷ insert_sorted a bs

abbrev pub sort : List String → List String
sort [] = []
sort (a ∷ bs) = insert_sorted a (sort bs)

-- The codes that take effect: known ones whose requirements are all known.
unfoldable pub filter_effective_permission_codes : List String → List String
filter_effective_permission_codes codes =
    let known = unique (filter is_assignable_permission_code codes) in
    sort (filter (λ code. all (includes known) (get_permission_requirements code)) known)

-- Everything that the catalog's tests compute with.
unfoldable pub effective_opened : Unit {0}
unfolding filter_effective_permission_codes get_permission_requirements
    is_assignable_permission_code is_device_group_scoped_permission permission_codes
    permission_catalog
effective_opened = tt
