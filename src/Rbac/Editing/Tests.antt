-- ===== src/Rbac/Editing/Tests.antt =====
-- Roles edited on sample tables, and the theorems on them.
use rustdesk_console.Common.Results.{◌>>=◌ as bind_result}
use rustdesk_console.Rbac.Editing.Validity.{validate_permissions-effective}
use rustdesk_console.Common.{
  String, ◌≡◌, refl, sym, ap, subst, Bool, Bool-cases, inl, inr, true, false, not, ◌&&◌, ◌||◌, none,
  some, List, [], ◌∷◌, ◌++◌, map, ◌==◌, string_eq, ==_iff, filter, any, includes, find?, arith,
}
use rustdesk_console.Common.Effects.{Result, ok, err, ◌>>=◌}
use rustdesk_console.Rbac.Catalog.{
  effective_opened, filter_effective_permission_codes, is_device_group_scoped_permission,
  permission_catalog,
}
use rustdesk_console.Rbac.Database.{Assignment, device_group}
use rustdesk_console.Rbac.Tests.{of_tables, tables}
use rustdesk_console.Rbac.RoleRules.{
  normalize_name, scoped_message, bad_request, validate_permissions, StoredRole, SaveFailure,
  UpdateRoleDto, may_be_scoped,
}
use rustdesk_console.Rbac.Editing.{
  next_permissions, asked, ensure_scoped_assignments_remain_valid, RoleTable, Desk, update_role,
  delete_role,
}
use rustdesk_console.Rbac.Editing.Scoped.{IsScoped, IsRoleTable}
use rustdesk_console.Rbac.Editing.Sequences.{updated, deleted, done, next, Steps-IsScoped}

-- Roles, with the codes they grant, and assignments.
record Rows : Type 0 where
  roles : List StoredRole
  codes : List (String × String)
  assignments : List Assignment

abbrev codes_of : String → List (String × String) → List String
codes_of role rows = map (λ r. r.1) (filter (λ r. r.0 == role) rows)

abbrev assigned : String → List Assignment → List Assignment
assigned role rows = filter (λ a. a.role_guid == role) rows

abbrev rows_table : RoleTable Rows
rows_table = record {
  rbac = λ d. of_tables tables;
  find_role = λ guid d. find? (λ r. r.guid == guid) d.roles;
  find_named = λ name d. find? (λ r. r.name == name) d.roles;
  find_permissions = λ role d. codes_of role d.codes;
  find_assignments_of = λ role d. assigned role d.assignments;
  save_role =
      λ r d. ok (record { roles = r ∷ d.roles; codes = d.codes; assignments = d.assignments });
  delete_permissions = λ role d. record {
    roles = d.roles;
    codes = filter (λ r. not (r.0 == role)) d.codes;
    assignments = d.assignments;
  };
  insert_permissions = λ role codes d. record {
    roles = d.roles;
    codes = map (λ c. (role, c)) codes ++ d.codes;
    assignments = d.assignments;
  };
  delete_groups = λ guids d. d;
  delete_assignments_of = λ role d. record {
    roles = d.roles;
    codes = d.codes;
    assignments = filter (λ a. not (a.role_guid == role)) d.assignments;
  };
  delete_role_row = λ guid d. record {
    roles = filter (λ r. not (r.guid == guid)) d.roles;
    codes = d.codes;
    assignments = d.assignments;
  };
  record_event = λ event d. d;
  rolled_back = λ d e. d;
}

deleted_codes :
    (role u : String) (q : String → Bool) (rows : List (String × String))
    → any q (codes_of u (filter (λ r. not (r.0 == role)) rows))
      ≡ (not (role == u) && any q (codes_of u rows))
deleted_codes role u q [] = ground arith
deleted_codes role u q (r ∷ rows) =
    ground (arith, deleted_codes role u q rows, ==_iff r.0 role, ==_iff r.0 u, ==_iff role u)

inserted_codes :
    (role u : String) (q : String → Bool) (codes : List String) (rows : List (String × String))
    → any q (codes_of u (map (λ c. (role, c)) codes ++ rows))
      ≡ (((role == u) && any q codes) || any q (codes_of u rows))
inserted_codes role u q [] rows = ground arith
inserted_codes role u q (c ∷ cs) rows = ground (arith, inserted_codes role u q cs rows)

unassigned_rows :
    (role u : String) (q : Assignment → Bool) (rows : List Assignment)
    → any q (assigned u (filter (λ a. not (a.role_guid == role)) rows))
      ≡ (not (role == u) && any q (assigned u rows))
unassigned_rows role u q [] = ground arith
unassigned_rows role u q (a ∷ rows) = ground (
  arith,
  unassigned_rows role u q rows,
  ==_iff a.role_guid role,
  ==_iff a.role_guid u,
  ==_iff role u,
)

abbrev stored : Result SaveFailure Rows → Rows → Rows
stored (ok d) before = d
stored (err e) before = before

rows_table-IsRoleTable : IsRoleTable rows_table
rows_table-IsRoleTable = record {
  saved = λ r d e h.
      let kept = sym (ap (λ s. stored s d) h) in
      (λ u. ap (λ z. codes_of u z.codes) kept, λ u. ap (λ z. assigned u z.assignments) kept);
  ungrouped = λ guids d. (λ u. refl, λ u. refl);
  recorded = λ event d. (λ u. refl, λ u. refl);
  restored = λ d e. (λ u. refl, λ u. refl);
  permissions-deleted = λ role d u q. deleted_codes role u q d.codes;
  permissions-inserted = λ role codes d u q. inserted_codes role u q codes d.codes;
  permissions-unassigned = λ role d u. refl;
  permissions-removed = λ role d u other. refl;
  held-deleted = λ role d u. refl;
  held-inserted = λ role codes d u. refl;
  held-unassigned = λ role d u. unassigned_rows role u _ d.assignments;
  held-removed = λ role d u h. h;
}

-- One role, which Ann holds for a group.
abbrev desk : Desk Rows
desk = record {
  rows = record {
    roles = record { guid = "r1"; name = "Helpers"; note = none; protected_account = false } ∷ [];
    codes = ("r1", "devices.view") ∷ ("r1", "devices.edit") ∷ [];
    assignments =
        record { guid = "a1"; user_guid = "ann"; role_guid = "r1"; scope_type = device_group } ∷ [];
  };
  log = [];
}

desk-IsScoped : IsScoped rows_table desk.rows
unfolding is_device_group_scoped_permission permission_catalog
desk-IsScoped = record {
  carried = λ role h. elim (Bool-cases ("r1" == role)) [
    | inl same ↦
        subst (λ r. may_be_scoped (rows_table.find_permissions r desk.rows) ≡ true)
          ((==_iff "r1" role).0 same) refl
    | inr other ↦ ground arith
  ];
}

abbrev with_codes : List String → UpdateRoleDto
with_codes codes = record {
  name = none;
  note = none;
  permissions = some codes;
  protected_account = none;
  confirm_protected_account_change = none;
}

abbrev narrowed : Desk Rows
narrowed = (update_role rows_table "r1" (with_codes ("devices.view" ∷ [])) "root" desk).1

Steps-IsScoped_example : IsScoped rows_table (delete_role rows_table "r1" "ann" narrowed).1.rows
Steps-IsScoped_example =
    Steps-IsScoped rows_table rows_table-IsRoleTable desk
      (delete_role rows_table "r1" "ann" narrowed).1
      (next (next (done desk) (updated "r1" (with_codes ("devices.view" ∷ [])) "root" desk))
        (deleted "r1" "ann" narrowed))
      desk-IsScoped

abbrev editing : List String
editing = "devices.view" ∷ "devices.edit" ∷ []

abbrev sorted_editing : List String
sorted_editing = "devices.edit" ∷ "devices.view" ∷ []

validate_permissions-effective_example :
    (includes sorted_editing "devices.edit" ≡ includes editing "devices.edit")
    × (includes (filter_effective_permission_codes sorted_editing) "devices.edit"
        ≡ includes editing "devices.edit")
unfolding validate_permissions effective_opened
validate_permissions-effective_example =
    validate_permissions-effective editing sorted_editing refl "devices.edit"

-- A name without its outer spaces, and a change that an assignment rules out.
edit_test :
    (normalize_name "  Staff " ≡ ok "Staff")
    × ((update_role rows_table "r1" (with_codes ("users.view" ∷ [])) "root" desk).0
        ≡ err (bad_request scoped_message))
unfolding update_role normalize_name next_permissions validate_permissions effective_opened asked
    ◌>>=◌ bind_result ensure_scoped_assignments_remain_valid
edit_test = (refl, refl)
