-- ===== src/Rbac/Database.antt =====
-- The rows that authorization reads, and the queries that it makes. The object-relational mapper is
-- a library: its queries are a parameter, and what a query returns is a named hypothesis.
use rustdesk_console.Common.{String, ◌≡◌, Bool, ◌&&◌, Option, List, string_eq, any, includes}

pub data UserStatus : Type 0 where
  disabled active unverified : UserStatus

pub record User : Type 0 where
  pub guid : String
  pub status : UserStatus
  pub is_admin : Bool

pub data AssignmentScope : Type 0 where
  global device_group : AssignmentScope
  other_scope : String → AssignmentScope

pub record Assignment : Type 0 where
  pub guid : String
  pub user_guid : String
  pub role_guid : String
  pub scope_type : AssignmentScope

pub record RolePermission : Type 0 where
  pub role_guid : String
  pub permission_code : String

pub record AssignmentGroup : Type 0 where
  pub assignment_guid : String
  pub device_group_guid : String

pub record Role : Type 0 where
  pub guid : String
  pub protected_account : Bool

pub record Peer : Type 0 where
  pub uuid : String
  pub device_group_guid : Option String

pub record DeviceGroup : Type 0 where
  pub guid : String

-- The queries: by a key (`findOne`), or by a list of keys (`find` with `In`).
pub record Database : Type 0 where
  pub find_user : String → Option User
  pub find_users : List String → List User
  pub find_assignments : List String → List Assignment
  pub find_role_permissions : List String → List RolePermission
  pub find_assignment_groups : List String → List AssignmentGroup
  pub find_roles : List String → List Role
  pub find_protected_roles : List String → List Role
  pub find_peer : String → Option Peer
  pub find_peers : List String → List Peer
  pub find_device_groups : List String → List DeviceGroup

pub record Tables : Type 0 where
  pub users : List User
  pub assignments : List Assignment
  pub role_permissions : List RolePermission
  pub assignment_groups : List AssignmentGroup
  pub roles : List Role
  pub peers : List Peer

-- A query by keys returns rows of its table whose key is asked for, and all of them, in any order:
-- a test holds of some row returned exactly when it holds of such a row.
abbrev pub Finds : {A : Type 0} → (A → String) → List A → (List String → List A) → Type 0
Finds {A} key rows find =
    (keys : List String) (p : A → Bool)
    → any p (find keys) ≡ any (λ r. includes keys (key r) && p r) rows

pub record IsDatabase (t : Tables) (db : Database) : Type 0 where
  pub assignments : Finds (λ (a : Assignment). a.user_guid) t.assignments db.find_assignments
  pub role_permissions :
      Finds (λ (r : RolePermission). r.role_guid) t.role_permissions db.find_role_permissions
  pub assignment_groups :
      Finds
        (λ (g : AssignmentGroup). g.assignment_guid)
        t.assignment_groups
        db.find_assignment_groups
  pub roles : Finds (λ (r : Role). r.guid) t.roles db.find_roles
  pub protected_roles :
      (keys : List String) (p : Role → Bool)
      → any p (db.find_protected_roles keys)
        ≡ any (λ r. includes keys r.guid && (r.protected_account && p r)) t.roles
  pub users : Finds (λ (u : User). u.guid) t.users db.find_users
