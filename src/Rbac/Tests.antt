-- ===== src/Rbac/Tests.antt =====
-- Sample tables with the queries that read them, and the theorems on them.
use rustdesk_console.Rbac.Effective.Agreement.{
  Agrees, get_effective_permissions-compute_permission_scope,
}
use rustdesk_console.Rbac.Effective.{
  permissions_of_user, get_effective_permissions, scope_of_grants,
}
use rustdesk_console.Common.{
  String, ◌≡◌, refl, ◌∙◌, Bool, true, false, Option, some, List, [], ◌∷◌, ◌&&◌, ◌||◌, not, ◌==◌,
  string_eq, filter, any, all, find?, includes, any-filter, any_ext, arith,
}
use rustdesk_console.Rbac.Catalog.{
  effective_opened, filter_effective_permission_codes, get_permission_requirements,
}
use rustdesk_console.Rbac.Catalog.Laws.{filter_effective_closed}
use rustdesk_console.Rbac.Authorization.{
  DeniedEvent, PermissionScope, assert_device_access, granted_scope, load_effective_role_grants,
  grants_opened,
}
use rustdesk_console.Rbac.Authorization.Scope.{granted_scope-groups, global_by, in_group}
use rustdesk_console.Rbac.Authorization.Access.{
  is_ok, may_reach, assert_device_access-is_ok, assert_devices_access-inside,
  assert_device_access-audit, denied_event, inside,
}
use rustdesk_console.Rbac.Protection.{protection_opened, get_effective_protection_map}
use rustdesk_console.Rbac.Protection.Laws.{
  marks, is_owner_row, holds_protected_role, marks-get_effective_protection_map, IsAllowed,
  assert_user_mutation-IsAllowed,
}
use rustdesk_console.Rbac.Database.{
  User, active, Assignment, global, device_group, RolePermission, AssignmentGroup, Role, Database,
  Tables, IsDatabase, Finds,
}

abbrev pub query : {A : Type 0} → (A → String) → List A → List String → List A
query key rows keys = filter (λ r. includes keys (key r)) rows

abbrev pub query_one : {A : Type 0} → (A → String) → List A → String → Option A
query_one key rows k = find? (λ r. key r == k) rows

abbrev pub of_tables : Tables → Database
of_tables t = record {
  find_user = query_one (λ u. u.guid) t.users;
  find_users = query (λ u. u.guid) t.users;
  find_assignments = query (λ a. a.user_guid) t.assignments;
  find_role_permissions = query (λ r. r.role_guid) t.role_permissions;
  find_assignment_groups = query (λ g. g.assignment_guid) t.assignment_groups;
  find_roles = query (λ r. r.guid) t.roles;
  find_protected_roles = λ keys. filter (λ r. includes keys r.guid && r.protected_account) t.roles;
  find_peer = query_one (λ p. p.uuid) t.peers;
  find_peers = query (λ p. p.uuid) t.peers;
  find_device_groups = λ keys. [];
}

query-Finds : {A : Type 0} (key : A → String) (rows : List A) → Finds key rows (query key rows)
query-Finds key rows keys p = any-filter (λ r. includes keys (key r)) p rows

of_tables-IsDatabase : (t : Tables) → IsDatabase t (of_tables t)
of_tables-IsDatabase t = record {
  assignments = query-Finds (λ (a : Assignment). a.user_guid) t.assignments;
  role_permissions = query-Finds (λ (r : RolePermission). r.role_guid) t.role_permissions;
  assignment_groups = query-Finds (λ (g : AssignmentGroup). g.assignment_guid) t.assignment_groups;
  roles = query-Finds (λ (r : Role). r.guid) t.roles;
  protected_roles = λ keys p. protected keys p;
  users = query-Finds (λ (u : User). u.guid) t.users;
}
  where
    protected :
        (keys : List String) (p : Role → Bool)
        → any p (filter (λ r. includes keys r.guid && r.protected_account) t.roles)
          ≡ any (λ r. includes keys r.guid && (r.protected_account && p r)) t.roles
    protected keys p =
        any-filter (λ (r : Role). includes keys r.guid && r.protected_account) p t.roles
        ∙ any_ext _ _ t.roles (λ r. ground arith)

-- Ann holds a role that views and edits devices, for one group.
abbrev pub tables : Tables
tables = record {
  users =
      record { guid = "ann"; status = active; is_admin = false }
      ∷ record { guid = "root"; status = active; is_admin = true }
      ∷ [];
  assignments =
      record { guid = "a1"; user_guid = "ann"; role_guid = "r1"; scope_type = device_group }
      ∷ record { guid = "a2"; user_guid = "ann"; role_guid = "r2"; scope_type = global }
      ∷ [];
  role_permissions =
      record { role_guid = "r1"; permission_code = "devices.view" }
      ∷ record { role_guid = "r1"; permission_code = "devices.edit" }
      ∷ record { role_guid = "r2"; permission_code = "users.view" }
      ∷ record { role_guid = "r2"; permission_code = "users.edit" }
      ∷ [];
  assignment_groups = record { assignment_guid = "a1"; device_group_guid = "g1" } ∷ [];
  roles =
      record { guid = "r1"; protected_account = false }
      ∷ record { guid = "r2"; protected_account = true }
      ∷ [];
  peers =
      record { uuid = "p1"; device_group_guid = some "g1" }
      ∷ record { uuid = "p2"; device_group_guid = some "g2" }
      ∷ [];
}

abbrev database : Database
database = of_tables tables

is_database : IsDatabase tables database
is_database = of_tables-IsDatabase tables

filter_effective_closed_example :
    all
      (includes (filter_effective_permission_codes ("devices.view" ∷ "devices.edit" ∷ [])))
      (get_permission_requirements "devices.edit")
    ≡ true
unfolding effective_opened
filter_effective_closed_example =
    filter_effective_closed ("devices.view" ∷ "devices.edit" ∷ []) "devices.edit" refl

granted_scope-groups_example :
    includes
      (granted_scope database
        (load_effective_role_grants database "ann")
        "devices.edit").device_group_guids
      "g1"
    ≡ (not (global_by tables "ann" "devices.edit") && in_group tables "ann" "devices.edit" "g1")
granted_scope-groups_example =
    granted_scope-groups tables database is_database "ann" "devices.edit" "g1"

assert_device_access-is_ok_example :
    is_ok (assert_device_access database "ann" "devices.edit" "p1" [])
    ≡ may_reach tables (database.find_user "ann") (database.find_peer "p1") "ann" "devices.edit"
assert_device_access-is_ok_example =
    assert_device_access-is_ok tables database is_database "ann" "devices.edit" "p1" []

-- The device of the group is let through, and the other is not.
access_test :
    (is_ok (assert_device_access database "ann" "devices.edit" "p1" []) ≡ true)
    × (is_ok (assert_device_access database "ann" "devices.edit" "p2" []) ≡ false)
unfolding grants_opened effective_opened
access_test = (refl, refl)

marks-get_effective_protection_map_example :
    marks (get_effective_protection_map database ("ann" ∷ "bob" ∷ [])) "ann" ≡ (
      includes {A = String} ("ann" ∷ "bob" ∷ []) "ann"
      && (is_owner_row tables "ann" || holds_protected_role tables "ann"))
marks-get_effective_protection_map_example =
    marks-get_effective_protection_map tables database is_database ("ann" ∷ "bob" ∷ []) "ann"

abbrev ann_scope : PermissionScope
ann_scope = record { global = false; device_group_guids = "g1" ∷ [] }

assert_devices_access-inside_example :
    (◌≡◌ {A = List DeniedEvent} [] [])
    × (inside ann_scope (record { uuid = "p1"; device_group_guid = some "g1" } ∷ []) ≡ true)
unfolding grants_opened effective_opened
assert_devices_access-inside_example =
    assert_devices_access-inside database "ann" "devices.edit" ("p1" ∷ "p1" ∷ []) [] []
      (record { uuid = "p1"; device_group_guid = some "g1" } ∷ []) ann_scope refl

assert_device_access-audit_example :
    (assert_device_access database "ann" "devices.edit" "p2" []).1
    ≡ denied_event "ann" "devices.edit" "p2" ∷ []
unfolding grants_opened effective_opened
assert_device_access-audit_example =
    assert_device_access-audit tables database is_database "ann" "devices.edit" "p2" []

assert_user_mutation-IsAllowed_example : IsAllowed database true "root" "ann" "users.edit" [] []
unfolding grants_opened effective_opened protection_opened
assert_user_mutation-IsAllowed_example =
    assert_user_mutation-IsAllowed database true "root" "ann" "users.edit" [] [] refl

abbrev ann_editing : PermissionScope
ann_editing = granted_scope database (load_effective_role_grants database "ann") "devices.edit"

get_effective_permissions-compute_permission_scope_example :
    Agrees ((permissions_of_user database "ann" false).scopes "devices.edit") ann_editing
unfolding grants_opened effective_opened get_effective_permissions scope_of_grants
get_effective_permissions-compute_permission_scope_example =
    get_effective_permissions-compute_permission_scope tables database is_database "ann"
      "devices.edit" (permissions_of_user database "ann" false) ann_editing [] [] [] refl refl refl
