-- ===== src/Rbac/Editing/Scoped.antt =====
-- Assignments for device groups carry only permissions for device groups, whatever is done to roles.
use rustdesk_console.Common.{
  String, ◌≡◌, refl, sym, ap, ◌∙◌, Bool, true, false, not, ◌&&◌, ◌||◌, List, [], ◌∷◌, ◌==◌,
  string_eq, ==_iff, if◌then◌else◌, any, all, arith, Bool-cases, inl, inr,
}
use rustdesk_console.Common.Effects.{ok}
use rustdesk_console.Rbac.Catalog.{is_device_group_scoped_permission}
use rustdesk_console.Rbac.Authorization.{is_group}
use rustdesk_console.Rbac.RoleRules.{StoredRole, RoleEvent, may_be_scoped}
use rustdesk_console.Rbac.Editing.{RoleTable, replace_permissions}

module _ {D : Type 0} (table : RoleTable D) where
  abbrev pub is_held : String → D → Bool
  is_held role d = any (λ a. is_group a.scope_type) (table.find_assignments_of role d)

  abbrev pub IsSame : D → D → Type 0
  IsSame d e =
      ((u : String) → table.find_permissions u e ≡ table.find_permissions u d)
      × ((u : String) → table.find_assignments_of u e ≡ table.find_assignments_of u d)

  -- A role that is assigned for device groups has permissions, and all of them are for devices.
  pub record IsScoped (d : D) : Type 0 where
    pub carried :
        (role : String)
        → is_held role d ≡ true
        → may_be_scoped (table.find_permissions role d) ≡ true

  -- What a call of the mapper does to the permissions and the assignments of roles.
  pub record IsRoleTable : Type 0 where
    pub saved : (r : StoredRole) (d e : D) → table.save_role r d ≡ ok e → IsSame d e
    pub ungrouped : (guids : List String) (d : D) → IsSame d (table.delete_groups guids d)
    pub recorded : (event : RoleEvent) (d : D) → IsSame d (table.record_event event d)
    pub restored : (d e : D) → IsSame d (table.rolled_back d e)
    pub permissions-deleted :
        (role : String) (d : D) (u : String) (q : String → Bool)
        → any q (table.find_permissions u (table.delete_permissions role d))
          ≡ (not (role == u) && any q (table.find_permissions u d))
    pub permissions-inserted :
        (role : String) (codes : List String) (d : D) (u : String) (q : String → Bool)
        → any q (table.find_permissions u (table.insert_permissions role codes d))
          ≡ (((role == u) && any q codes) || any q (table.find_permissions u d))
    pub permissions-unassigned :
        (role : String) (d : D) (u : String)
        → table.find_permissions u (table.delete_assignments_of role d) ≡ table.find_permissions u d
    pub permissions-removed :
        (role : String) (d : D) (u : String)
        → (role == u) ≡ false
        → table.find_permissions u (table.delete_role_row role d) ≡ table.find_permissions u d
    pub held-deleted :
        (role : String) (d : D) (u : String)
        → is_held u (table.delete_permissions role d) ≡ is_held u d
    pub held-inserted :
        (role : String) (codes : List String) (d : D) (u : String)
        → is_held u (table.insert_permissions role codes d) ≡ is_held u d
    pub held-unassigned :
        (role : String) (d : D) (u : String)
        → is_held u (table.delete_assignments_of role d) ≡ (not (role == u) && is_held u d)
    pub held-removed :
        (role : String) (d : D) (u : String)
        → is_held u (table.delete_role_row role d) ≡ true
        → is_held u d ≡ true

-- Both parts of the test by the permissions that there are.
pub may_be_scoped-any :
    (ps : List String)
    → may_be_scoped ps
      ≡ (any (λ c. true) ps && not (any (λ c. not (is_device_group_scoped_permission c)) ps))
may_be_scoped-any [] = refl
may_be_scoped-any (x ∷ xs) = ground (arith, all_any xs)
  where
    all_any :
        (xs : List String)
        → all is_device_group_scoped_permission xs
          ≡ not (any (λ c. not (is_device_group_scoped_permission c)) xs)
    all_any [] = refl
    all_any (x ∷ xs) = ground (arith, all_any xs)

module _ {D : Type 0} (table : RoleTable D) (laws : IsRoleTable table) where
  pub same-IsScoped : (d e : D) → IsSame table d e → IsScoped table d → IsScoped table e
  same-IsScoped d e (p, a) v = record {
    carried = λ role h.
        ap may_be_scoped (p role)
        ∙ v.carried role (sym (ap (any (λ x. is_group x.scope_type)) (a role)) ∙ h);
  }

  pub replaced-held :
      (role : String) (codes : List String) (d : D) (u : String)
      → is_held table u (replace_permissions table role codes d) ≡ is_held table u d
  unfolding replace_permissions
  replaced-held role [] d u = laws.held-deleted role d u
  replaced-held role (c ∷ cs) d u =
      laws.held-inserted role (c ∷ cs) (table.delete_permissions role d) u
      ∙ laws.held-deleted role d u

  replaced-any :
      (role : String) (codes : List String) (d : D) (u : String) (q : String → Bool)
      → any q (table.find_permissions u (replace_permissions table role codes d))
        ≡ (((role == u) && any q codes) || (not (role == u) && any q (table.find_permissions u d)))
  unfolding replace_permissions
  replaced-any role [] d u q = ground (arith, laws.permissions-deleted role d u q)
  replaced-any role (c ∷ cs) d u q = ground (
    arith,
    laws.permissions-inserted role (c ∷ cs) (table.delete_permissions role d) u q,
    laws.permissions-deleted role d u q,
  )

  replaced-scoped :
      (role : String) (codes : List String) (d : D) (u : String)
      → may_be_scoped (table.find_permissions u (replace_permissions table role codes d))
        ≡ (if role == u then may_be_scoped codes else may_be_scoped (table.find_permissions u d))
  replaced-scoped role codes d u =
      let is_global_code = λ (c : String). not (is_device_group_scoped_permission c) in
      ground (
        arith,
        may_be_scoped-any (table.find_permissions u (replace_permissions table role codes d)),
        may_be_scoped-any codes,
        may_be_scoped-any (table.find_permissions u d),
        replaced-any role codes d u (λ c. true),
        replaced-any role codes d u is_global_code,
      )

  -- New permissions of a role that is not held, or that may be held with them.
  pub replaced-IsScoped :
      (role : String) (codes : List String) (d : D)
      → (is_held table role d && not (may_be_scoped codes)) ≡ false
      → IsScoped table d
      → IsScoped table (replace_permissions table role codes d)
  replaced-IsScoped role codes d allowed v = record {
    carried = λ u h.
        let held = sym (replaced-held role codes d u) ∙ h in
        elim (Bool-cases (role == u)) [
          | inl same ↦
              let key = ap (λ r. is_held table r d) ((==_iff role u).0 same) in
              ground (arith, replaced-scoped role codes d u)
          | inr other ↦ ground (arith, replaced-scoped role codes d u, v.carried u held)
        ];
  }
