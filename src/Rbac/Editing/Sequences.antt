-- ===== src/Rbac/Editing/Sequences.antt =====
-- The operations on roles, one after the other.
use rustdesk_console.Common.{String, ◌≡◌, false}
use rustdesk_console.Rbac.RoleRules.{CreateRoleDto, UpdateRoleDto}
use rustdesk_console.Rbac.Editing.{
  RoleTable, Desk, create_role, update_role, delete_role, created_role,
}
use rustdesk_console.Rbac.Editing.Scoped.{is_held, IsScoped, IsRoleTable}
use rustdesk_console.Rbac.Editing.Preserved.{
  transaction-IsScoped, asked-IsScoped, created-IsScoped, updated-IsScoped,
}
use rustdesk_console.Rbac.Editing.Deletion.{deletion-IsScoped}

module _ {D : Type 0} (table : RoleTable D) where
  -- One call, and what it leaves. The identifier of a new role is one that nothing assigns.
  pub data Step : Desk D → Desk D → Type 0 where
    created :
        (guid : String) (dto : CreateRoleDto) (actor : String) (w : Desk D)
        → is_held table guid w.rows ≡ false
        → Step w (create_role table guid dto actor w).1
    updated :
        (guid : String) (dto : UpdateRoleDto) (actor : String) (w : Desk D)
        → Step w (update_role table guid dto actor w).1
    deleted : (guid actor : String) (w : Desk D) → Step w (delete_role table guid actor w).1

  pub data Steps : Desk D → Desk D → Type 0 where
    done : (w : Desk D) → Steps w w
    next : {u v w : Desk D} → Steps u v → Step v w → Steps u w

module _ {D : Type 0} (table : RoleTable D) (laws : IsRoleTable table) where
  create_role-IsScoped :
      (guid : String) (dto : CreateRoleDto) (actor : String) (w : Desk D)
      → is_held table guid w.rows ≡ false
      → IsScoped table w.rows
      → IsScoped table (create_role table guid dto actor w).1.rows
  unfolding create_role
  create_role-IsScoped guid dto actor w fresh start = asked-IsScoped table laws _ _ w start λ name.
      asked-IsScoped table laws _ _ w start λ codes. asked-IsScoped table laws _ _ w start λ u.
        transaction-IsScoped table laws _ w start λ r v e.
          created-IsScoped table laws (created_role table guid name dto) codes actor w v r fresh
            start e

  update_role-IsScoped :
      (guid : String) (dto : UpdateRoleDto) (actor : String) (w : Desk D)
      → IsScoped table w.rows
      → IsScoped table (update_role table guid dto actor w).1.rows
  unfolding update_role
  update_role-IsScoped guid dto actor w start = asked-IsScoped table laws _ _ w start λ codes.
      transaction-IsScoped table laws _ w start
        λ r v e. updated-IsScoped table laws guid dto actor w v r start e

  delete_role-IsScoped :
      (guid actor : String) (w : Desk D)
      → IsScoped table w.rows
      → IsScoped table (delete_role table guid actor w).1.rows
  unfolding delete_role
  delete_role-IsScoped guid actor w start =
      transaction-IsScoped table laws _ w start
        λ r v e. deletion-IsScoped table laws guid actor w v r start e

  Step-IsScoped : {v w : Desk D} → Step table v w → IsScoped table v.rows → IsScoped table w.rows
  Step-IsScoped (created guid dto actor v fresh) start =
      create_role-IsScoped guid dto actor v fresh start
  Step-IsScoped (updated guid dto actor v) start = update_role-IsScoped guid dto actor v start
  Step-IsScoped (deleted guid actor v) start = delete_role-IsScoped guid actor v start

  -- If every role that is assigned for device groups has permissions and all of them are for device
  -- groups, then the same is true after any sequence of creations, changes and deletions of roles,
  -- returning or throwing. A created role has an identifier that no assignment for device groups
  -- names, and the database calls behave as `IsRoleTable` says.
  pub Steps-IsScoped :
      (v w : Desk D) → Steps table v w → IsScoped table v.rows → IsScoped table w.rows
  Steps-IsScoped v w (done v') start = start
  Steps-IsScoped v w (next before last) start = Step-IsScoped last (Steps-IsScoped _ _ before start)
