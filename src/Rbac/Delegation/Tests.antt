-- ===== src/Rbac/Delegation/Tests.antt =====
-- Roles replaced on sample tables, and the theorems on them.
use rustdesk_console.Common.{
  ℕ, String, ◌≡◌, refl, Bool, false, not, ◌&&◌, ◌||◌, some, List, [], ◌∷◌, ◌++◌, ◌==◌, string_eq,
  ==_iff, ==_comm, filter, any, includes, arith,
}
use rustdesk_console.Common.Effects.{Result, ok, get}
use rustdesk_console.Rbac.Database.{
  User, active, Assignment, global, device_group, AssignmentGroup, DeviceGroup, Database, Tables,
}
use rustdesk_console.Rbac.Tests.{query, of_tables}
use rustdesk_console.Rbac.Roles.{
  RoleError, group_permissions, load_assignments, effective_scopes, validate_from,
  validate_assignment, UserRoleAssignmentDto, NormalizedAssignment, LoadedAssignment, Scopes,
}
use rustdesk_console.Common.Results.{◌>>=◌ as bind_result}
use rustdesk_console.Rbac.Catalog.{effective_opened}
use rustdesk_console.Rbac.Authorization.{grants_opened}
use rustdesk_console.Rbac.Protection.{protection_opened}
use rustdesk_console.Rbac.Roles.{validate_assignments}
use rustdesk_console.Rbac.Delegation.Outcome.{IsDelegated}
use rustdesk_console.Rbac.Delegation.Passed.{replace_user_roles-IsDelegated}
use rustdesk_console.Rbac.Delegation.Stored.{IsReplaced, replace_user_roles-IsReplaced}
use rustdesk_console.Rbac.Effective.{scope_of_grants, get_effective_permissions}
use rustdesk_console.Rbac.Eligibility.{auth, eligibility, caller_scopes, get_role_eligibility}
use rustdesk_console.Rbac.Delegation.{
  propose, check_roles_exist, check_group_scopes, check_groups_exist, check_scope, check_actor,
  check_target,
}
use rustdesk_console.Rbac.Delegation.Replacement.{
  check_eligibility, check_before, check_given_roles, check_taken_roles, check_within, checks,
  transaction, save_all, write_roles, replace_in_transaction, get_user_roles, RoleStore,
  IsRoleStore, RoleService, replace_user_roles,
}

abbrev with_assignments : List Assignment → List AssignmentGroup → Tables → Tables
with_assignments a g t = record {
  users = t.users;
  assignments = a;
  role_permissions = t.role_permissions;
  assignment_groups = g;
  roles = t.roles;
  peers = t.peers;
}

abbrev all_groups : List DeviceGroup
all_groups = record { guid = "g1" } ∷ record { guid = "g2" } ∷ []

abbrev database_of : Tables → Database
database_of t =
    let db = of_tables t in
    record {
      find_user = db.find_user;
      find_users = db.find_users;
      find_assignments = db.find_assignments;
      find_role_permissions = db.find_role_permissions;
      find_assignment_groups = db.find_assignment_groups;
      find_roles = db.find_roles;
      find_protected_roles = db.find_protected_roles;
      find_peer = db.find_peer;
      find_peers = db.find_peers;
      find_device_groups = λ keys. query (λ g. g.guid) keys_of keys;
    }
  where
    keys_of : List DeviceGroup
    keys_of = all_groups

abbrev store : RoleStore Tables
store = record {
  rbac = database_of;
  all_roles = λ t. t.roles;
  all_groups = λ t. all_groups;
  delete_assignment_groups = λ guids t.
      with_assignments t.assignments
        (filter (λ g. not (includes guids g.assignment_guid)) t.assignment_groups) t;
  delete_assignments = λ user t.
      with_assignments (filter (λ a. not (user == a.user_guid)) t.assignments) t.assignment_groups
        t;
  save_assignment = λ a t. with_assignments (a ∷ t.assignments) t.assignment_groups t;
  insert_assignment_groups = λ gs t. with_assignments t.assignments (gs ++ t.assignment_groups) t;
  record_replaced = λ r t. t;
  rolled_back = λ t t'. t;
}

deleted-rows :
    (user u : String) (q : Assignment → Bool) (rows : List Assignment)
    → any q
        (filter (λ a. (u == a.user_guid) || false) (filter (λ a. not (user == a.user_guid)) rows))
      ≡ (not (user == u) && any q (filter (λ a. (u == a.user_guid) || false) rows))
deleted-rows user u q [] = ground arith
deleted-rows user u q (a ∷ rows) = ground (
  arith,
  deleted-rows user u q rows,
  ==_iff u a.user_guid,
  ==_iff user a.user_guid,
  ==_iff user u,
)

ungrouped-rows :
    (guids keys : List String) (q : AssignmentGroup → Bool) (rows : List AssignmentGroup)
    → any q (
        filter
          (λ g. includes keys g.assignment_guid)
          (filter (λ g. not (includes guids g.assignment_guid)) rows))
      ≡ any
          (λ g. not (includes guids g.assignment_guid) && q g)
          (filter (λ g. includes keys g.assignment_guid) rows)
ungrouped-rows guids keys q [] = refl
ungrouped-rows guids keys q (g ∷ rows) = ground (arith, ungrouped-rows guids keys q rows)

store-IsRoleStore : IsRoleStore store
store-IsRoleStore = record {
  assignments-saved = λ a d u q. ground (arith, ==_comm u a.user_guid);
  assignments-deleted = λ user d u q. deleted-rows user u q d.assignments;
  assignments-ungrouped = λ guids d u. refl;
  assignments-grouped = λ gs d u. refl;
  assignments-recorded = λ r d u. refl;
  groups-saved = λ a d keys. refl;
  groups-deleted = λ user d keys. refl;
  groups-ungrouped = λ guids d keys q. ungrouped-rows guids keys q d.assignment_groups;
  groups-grouped = λ gs d keys q. grouped gs d keys q;
  groups-recorded = λ r d keys. refl;
}
  where
    grouped :
        (gs : List AssignmentGroup) (d : Tables) (keys : List String) (q : AssignmentGroup → Bool)
        → any q (filter (λ g. includes keys g.assignment_guid) (gs ++ d.assignment_groups)) ≡ (
            any (λ g. includes keys g.assignment_guid && q g) gs
            || any q (filter (λ g. includes keys g.assignment_guid) d.assignment_groups))
    grouped [] d keys q = refl
    grouped (g ∷ gs) d keys q = ground (arith, grouped gs d keys q)

-- The deputy assigns roles and views devices; Bob has no role.
abbrev staff : Tables
staff = record {
  users =
      record { guid = "deputy"; status = active; is_admin = false }
      ∷ record { guid = "bob"; status = active; is_admin = false }
      ∷ [];
  assignments =
      record { guid = "a1"; user_guid = "deputy"; role_guid = "boss"; scope_type = global } ∷ [];
  role_permissions =
      record { role_guid = "boss"; permission_code = "roles.assign" }
      ∷ record { role_guid = "boss"; permission_code = "roles.view" }
      ∷ record { role_guid = "boss"; permission_code = "users.view" }
      ∷ record { role_guid = "boss"; permission_code = "devices.view" }
      ∷ record { role_guid = "viewer"; permission_code = "devices.view" }
      ∷ [];
  assignment_groups = [];
  roles =
      record { guid = "boss"; protected_account = false }
      ∷ record { guid = "viewer"; protected_account = false }
      ∷ [];
  peers = [];
}

abbrev office : RoleService Tables
office = record { rows = staff; log = [] }

abbrev request : List UserRoleAssignmentDto
request =
    record {
      role_guid = "viewer";
      scope_type = device_group;
      device_group_guids = some ("g1" ∷ []);
    }
    ∷ []

abbrev uuid : ℕ → String
uuid n = "new"

abbrev result : Result RoleError (List LoadedAssignment × Scopes) × RoleService Tables
result = replace_user_roles store uuid "bob" request "deputy" office

abbrev shown : List LoadedAssignment × Scopes
shown = (
  record {
    assignment = record {
      guid = "new";
      user_guid = "bob";
      role_guid = "viewer";
      scope_type = device_group;
    };
    role = some (record { guid = "viewer"; protected_account = false });
    permissions = "devices.view" ∷ [];
    group_guids = "g1" ∷ [];
  }
      ∷ [],
  ("devices.view", record { global = false; device_group_guids = "g1" ∷ [] }) ∷ [],
)

-- Everything that a replacement computes with.
unfoldable replacement_opened : Unit {0}
unfolding grants_opened protection_opened effective_opened group_permissions load_assignments
    effective_scopes validate_from validate_assignment bind_result scope_of_grants
    get_effective_permissions auth eligibility caller_scopes get_role_eligibility propose
    check_roles_exist check_group_scopes check_groups_exist check_scope check_actor check_target
    check_eligibility check_before check_given_roles check_taken_roles check_within checks
    transaction save_all write_roles replace_in_transaction get_user_roles replace_user_roles get
replacement_opened = tt

replaced : replace_user_roles store uuid "bob" request "deputy" office ≡ (ok shown, result.1)
unfolding replacement_opened
replaced = refl

abbrev deputy : User
deputy = record { guid = "deputy"; status = active; is_admin = false }

replace_user_roles-IsDelegated_example :
    (requested : List NormalizedAssignment) × (validate_assignments request ≡ ok requested)
    × IsDelegated (database_of staff) "bob" "deputy" deputy requested
replace_user_roles-IsDelegated_example =
    replace_user_roles-IsDelegated store uuid "bob" request "deputy" deputy shown office result.1
      replaced refl refl

replace_user_roles-IsReplaced_example :
    (requested : List NormalizedAssignment) × (validate_assignments request ≡ ok requested)
    × IsReplaced store uuid store-IsRoleStore "bob" requested staff result.1.rows
replace_user_roles-IsReplaced_example =
    replace_user_roles-IsReplaced store uuid store-IsRoleStore "bob" request "deputy" shown office
      result.1 replaced
