-- ===== src/Rbac/Editing/Deletion.antt =====
-- What the deletion of a role leaves of the rule on assignments for device groups.
use rustdesk_console.Common.{
  String, ◌≡◌, refl, sym, ap, ◌∙◌, subst, true, false, not, ◌&&◌, List, [], ◌∷◌, ◌==◌, string_eq,
  ==_iff, if◌then◌else◌, any, map, arith, Bool-cases, inl, inr,
}
use rustdesk_console.Common.Effects.{ok, modify, bind-ok}
use rustdesk_console.Rbac.Catalog.{is_device_group_scoped_permission}
use rustdesk_console.Rbac.Database.{Assignment}
use rustdesk_console.Rbac.Authorization.{is_group, is_nil}
use rustdesk_console.Rbac.RoleRules.{StoredRole, may_be_scoped}
use rustdesk_console.Rbac.Editing.{RoleTable, Desk, deleted_rows, delete_in_transaction}
use rustdesk_console.Rbac.Editing.Preserved.{recorded-IsScoped, same-held, asked-then, super-rows}
use rustdesk_console.Rbac.Editing.Scoped.{is_held, IsScoped, IsRoleTable, may_be_scoped-any}

module _ {D : Type 0} (table : RoleTable D) (laws : IsRoleTable table) where
  abbrev revoked : String → List Assignment → D → D
  revoked guid assignments d =
      if is_nil assignments
      then d
      else table.delete_assignments_of guid (table.delete_groups (map (λ a. a.guid) assignments) d)

  revoked-permissions :
      (guid : String) (l : List Assignment) (d : D) (u : String)
      → table.find_permissions u (revoked guid l d) ≡ table.find_permissions u d
  revoked-permissions guid [] d u = refl
  revoked-permissions guid (a ∷ l) d u =
      laws.permissions-unassigned guid (table.delete_groups (map (λ a. a.guid) (a ∷ l)) d) u
      ∙ (laws.ungrouped (map (λ (a : Assignment). a.guid) (a ∷ l)) d).0 u

  revoked-held :
      (guid : String) (l : List Assignment) (d : D) (u : String)
      → table.find_assignments_of guid d ≡ l
      → is_held table u (revoked guid l d) ≡ (not (guid == u) && is_held table u d)
  revoked-held guid [] d u none_assigned = elim (Bool-cases (guid == u)) [
    | inl same ↦
        let key =
          ap (λ r. is_held table r d) (sym ((==_iff guid u).0 same))
          ∙ ap (any (λ (a : Assignment). is_group a.scope_type)) none_assigned in
        ground (arith, key)
    | inr other ↦ ground arith
  ]
  revoked-held guid (a ∷ l) d u assigned =
      laws.held-unassigned guid (table.delete_groups (map (λ a. a.guid) (a ∷ l)) d) u
      ∙ ap (λ b. not (guid == u) && b)
          (same-held table laws d (table.delete_groups (map (λ (a : Assignment). a.guid) (a ∷ l)) d)
            (laws.ungrouped (map (λ (a : Assignment). a.guid) (a ∷ l)) d) u)

  -- The permissions and the row of a role are deleted when nothing assigns it any more.
  removed-IsScoped :
      (guid : String) (d e : D)
      → ((u : String) → table.find_permissions u e ≡ table.find_permissions u d)
      → ((u : String) → is_held table u e ≡ (not (guid == u) && is_held table u d))
      → IsScoped table d
      → IsScoped table (table.delete_role_row guid (table.delete_permissions guid e))
  removed-IsScoped guid d e p a start = record {
    carried = λ u h.
        let cleared = table.delete_permissions guid e in
        let held = sym (laws.held-deleted guid e u) ∙ laws.held-removed guid cleared u h in
        let (other, was_held) = split u (sym (a u) ∙ held) in
        ap may_be_scoped (laws.permissions-removed guid cleared u other)
        ∙ kept u other
        ∙ ap may_be_scoped (p u)
        ∙ start.carried u was_held;
  }
    where
      split :
          (u : String)
          → (not (guid == u) && is_held table u d) ≡ true
          → ((guid == u) ≡ false) × (is_held table u d ≡ true)
      split u h = (ground arith, ground arith)

      kept :
          (u : String)
          → (guid == u) ≡ false
          → may_be_scoped (table.find_permissions u (table.delete_permissions guid e))
            ≡ may_be_scoped (table.find_permissions u e)
      kept u other = ground (
        arith,
        may_be_scoped-any (table.find_permissions u (table.delete_permissions guid e)),
        may_be_scoped-any (table.find_permissions u e),
        laws.permissions-deleted guid e u (λ c. true),
        laws.permissions-deleted guid e u (λ c. not (is_device_group_scoped_permission c)),
      )

  deleted-IsScoped :
      (guid actor : String) (role : StoredRole) (d : D)
      → IsScoped table d
      → IsScoped table (deleted_rows table guid actor role d)
  unfolding deleted_rows
  deleted-IsScoped guid actor role d start =
      let l = table.find_assignments_of guid d in
      recorded-IsScoped table laws _ _ (
        removed-IsScoped guid d (revoked guid l d) (revoked-permissions guid l d)
          (λ u. revoked-held guid l d u refl) start)

  pub deletion-IsScoped :
      (guid actor : String) (w v : Desk D) (r : Unit {0})
      → IsScoped table w.rows
      → delete_in_transaction table guid actor w ≡ (ok r, v)
      → IsScoped table v.rows
  unfolding delete_in_transaction modify
  deletion-IsScoped guid actor w v r start h =
      let (u, t, f, k) = bind-ok _ _ h in
      let (role, _, h1) = asked-then table laws _ _ t v r k in
      subst (IsScoped table) (ap (λ z. z.1.rows) h1) (
        deleted-IsScoped guid actor role t.rows
          (subst (IsScoped table) (sym (super-rows table laws actor u w t f)) start))
