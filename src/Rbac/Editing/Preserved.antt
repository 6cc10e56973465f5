-- ===== src/Rbac/Editing/Preserved.antt =====
-- What each operation on roles leaves of the rule on assignments for device groups.
use rustdesk_console.Common.{
  String, ◌≡◌, refl, sym, ap, ◌∙◌, subst, false, not, ◌&&◌, Option, none, some, List, string_eq,
  any, arith,
}
use rustdesk_console.Common.Effects.{Result, ok, err, pure, modify, ◌>>=◌, ◌>>◌, bind-ok, pure-ok}
use rustdesk_console.Common.Results.{bind-ok as result-ok}
use rustdesk_console.Rbac.Database.{User}
use rustdesk_console.Rbac.Authorization.{is_group, AuthError, DeniedEvent, require_super_admin}
use rustdesk_console.Rbac.RoleRules.{
  RoleState, StoredRole, EditError, SaveFailure, RoleEvent, UpdateRoleDto, RoleResponse,
  may_be_scoped,
}
use rustdesk_console.Rbac.Editing.{
  write_update, change_role, RoleTable, Desk, Call, asked, save, transaction, undone,
  check_super_admin, replace_permissions, ensure_scoped_assignments_remain_valid, next_permissions,
  replaced_if_given, create_in_transaction, update_in_transaction, authorized, saved_rows,
}
use rustdesk_console.Rbac.Editing.Scoped.{
  is_held, IsSame, IsScoped, IsRoleTable, same-IsScoped, replaced-IsScoped,
}

module _ {D : Type 0} (table : RoleTable D) (laws : IsRoleTable table) where
  asked-ok :
      {A : Type 0} (f : D → Result EditError A) {a : A} {w v : Desk D}
      → asked table f w ≡ (ok a, v)
      → (f w.rows ≡ ok a) × (v ≡ w)
  unfolding asked
  asked-ok f h = (ap (λ r. r.0) h, sym (ap (λ r. r.1) h))

  pub super-rows :
      (actor : String) (u : User) (w v : Desk D)
      → check_super_admin table actor w ≡ (ok u, v)
      → v.rows ≡ w.rows
  unfolding check_super_admin
  super-rows actor u w v h = go (require_super_admin (table.rbac w.rows) actor w.log) h
    where
      go :
          (r : Result AuthError User × List DeniedEvent)
          → authorized table w.rows r ≡ (ok u, v)
          → v.rows ≡ w.rows
      go (ok x, log) e = sym (ap (λ r. r.1.rows) e)
      go (err x, log) e = ground arith

  save-IsSame :
      (handler : SaveFailure → EditError) (r : StoredRole) (u : Unit {0}) (w v : Desk D)
      → save table handler r w ≡ (ok u, v)
      → IsSame table w.rows v.rows
  unfolding save
  save-IsSame handler r u w v h = go (table.save_role r w.rows) refl h
    where
      go :
          (s : Result SaveFailure D)
          → table.save_role r w.rows ≡ s
          → saved_rows table handler w s ≡ (ok u, v)
          → IsSame table w.rows v.rows
      go (ok d) e k = subst (IsSame table w.rows) (ap (λ r. r.1.rows) k) (laws.saved r w.rows d e)
      go (err x) e k = ground arith

  -- A transaction that throws leaves the rows as they were.
  pub transaction-IsScoped :
      {A : Type 0} (m : Call table A) (w : Desk D)
      → IsScoped table w.rows
      → ((a : A) (v : Desk D) → m w ≡ (ok a, v) → IsScoped table v.rows)
      → IsScoped table (transaction table m w).1.rows
  unfolding transaction
  transaction-IsScoped {A} m w start after = go (m w) refl
    where
      go :
          (r : Result EditError A × Desk D)
          → m w ≡ r
          → IsScoped table (undone table w.rows r).1.rows
      go (ok a, v) e = after a v e
      go (err x, v) e =
          same-IsScoped table laws w.rows (table.rolled_back w.rows v.rows)
            (laws.restored w.rows v.rows) start

  pub asked-IsScoped :
      {A B : Type 0} (f : D → Result EditError A) (k : A → Call table B) (w : Desk D)
      → IsScoped table w.rows
      → ((a : A) → IsScoped table (k a w).1.rows)
      → IsScoped table ((asked table f >>= k) w).1.rows
  unfolding asked ◌>>=◌
  asked-IsScoped {A} {B} f k w start after = go (f w.rows)
    where
      go : (r : Result EditError A) → IsScoped table ((asked table (λ d. r) >>= k) w).1.rows
      go (ok a) = after a
      go (err x) = start

  -- A role is saved, and then the rows are changed.
  write-ok :
      {A : Type 0} (handler : SaveFailure → EditError) (role : StoredRole) (g : Desk D → Desk D)
      (x r : A) (w v : Desk D)
      → (save table handler role >> (modify g >> pure x)) w ≡ (ok r, v)
      → (t : Desk D) × IsSame table w.rows t.rows × (v ≡ g t)
  unfolding modify
  write-ok handler role g x r w v h =
      let (u, t, f, k) = bind-ok _ _ h in
      let (u', t', f', k') = bind-ok (modify g) _ k in
      (t, save-IsSame handler role u w t f, (pure-ok x r k').1 ∙ sym (ap (λ z. z.1) f'))

  pub recorded-IsScoped :
      (event : RoleEvent) (d : D) → IsScoped table d → IsScoped table (table.record_event event d)
  recorded-IsScoped event d =
      same-IsScoped table laws d (table.record_event event d) (laws.recorded event d)

  pub same-held :
      (d e : D) → IsSame table d e → (u : String) → is_held table u e ≡ is_held table u d
  same-held d e (p, a) u = ap (any (λ x. is_group x.scope_type)) (a u)

  pub created-IsScoped :
      (role : StoredRole) (permissions : List String) (actor : String) (w v : Desk D)
      (r : RoleResponse)
      → is_held table role.guid w.rows ≡ false
      → IsScoped table w.rows
      → create_in_transaction table role permissions actor w ≡ (ok r, v)
      → IsScoped table v.rows
  unfolding create_in_transaction
  created-IsScoped role permissions actor w v r fresh start h =
      let (u, t, f, k) = bind-ok _ _ h in
      let rows = super-rows actor u w t f in
      let (s, same, e) = write-ok _ role _ _ r t v k in
      let free =
        same-held t.rows s.rows same role.guid ∙ ap (is_held table role.guid) rows ∙ fresh in
      subst (IsScoped table) (sym (ap (λ z. z.rows) e)) (
        recorded-IsScoped _ _ (
          replaced-IsScoped table laws role.guid permissions s.rows (ground (arith, free)) (
            same-IsScoped table laws t.rows s.rows same (subst (IsScoped table) (sym rows) start))))

  ensured-allowed :
      (role : String) (codes : List String) (d : D) (u : Unit {0})
      → ensure_scoped_assignments_remain_valid table role codes d ≡ ok u
      → (is_held table role d && not (may_be_scoped codes)) ≡ false
  unfolding ensure_scoped_assignments_remain_valid
  ensured-allowed role codes d u h = ground arith

  given-IsScoped :
      (guid : String) (o : Option (List String)) (before codes : List String) (d e : D)
      → next_permissions table guid o before d ≡ ok codes
      → IsSame table d e
      → IsScoped table d
      → IsScoped table (replaced_if_given table guid o codes e)
  unfolding next_permissions
  given-IsScoped guid none before codes d e h same start = same-IsScoped table laws d e same start
  given-IsScoped guid (some g) before codes d e h same start =
      let (checked, f, k) = result-ok h in
      let (u, f', k') = result-ok k in
      let named : checked ≡ codes = ground (arith, k') in
      let allowed = ensured-allowed guid checked d u f' in
      subst (λ c. IsScoped table (replace_permissions table guid c e)) named
        (replaced-IsScoped table laws guid checked e
          (ground (arith, same-held d e same guid, allowed))
          (same-IsScoped table laws d e same start))

  -- A check that reads is passed, and what follows runs on the same state.
  pub asked-then :
      {A B : Type 0} (f : D → Result EditError A) (k : A → Call table B) (w v : Desk D) (b : B)
      → (asked table f >>= k) w ≡ (ok b, v)
      → (a : A) × (f w.rows ≡ ok a) × (k a w ≡ (ok b, v))
  asked-then f k w v b h =
      let (a, t, g, e) = bind-ok (asked table f) k h in
      let (passed, same) = asked-ok f g in (a, passed, subst (λ z. k a z ≡ (ok b, v)) same e)

  write_update-IsScoped :
      (guid : String) (dto : UpdateRoleDto) (actor : String) (before : RoleState)
      (role : StoredRole) (old codes : List String) (w v : Desk D) (r : RoleResponse)
      → next_permissions table guid dto.permissions old w.rows ≡ ok codes
      → IsScoped table w.rows
      → write_update table guid dto actor before role codes w ≡ (ok r, v)
      → IsScoped table v.rows
  unfolding write_update
  write_update-IsScoped guid dto actor before role old codes w v r checked start h =
      let (s, same, e) = write-ok _ role _ _ r w v h in
      subst (IsScoped table) (sym (ap (λ z. z.rows) e)) (
        recorded-IsScoped _ _
          (given-IsScoped guid dto.permissions old codes w.rows s.rows checked same start))

  change_role-IsScoped :
      (guid : String) (dto : UpdateRoleDto) (actor : String) (role : StoredRole)
      (before : List String) (w v : Desk D) (r : RoleResponse)
      → IsScoped table w.rows
      → change_role table guid dto actor role before w ≡ (ok r, v)
      → IsScoped table v.rows
  unfolding change_role
  change_role-IsScoped guid dto actor role before w v r start h =
      let (name, _, h1) = asked-then _ _ w v r h in
      let (codes, checked, h2) = asked-then _ _ w v r h1 in
      let (protected_account, _, h3) = asked-then _ _ w v r h2 in
      write_update-IsScoped guid dto actor _ _ before codes w v r checked start h3

  pub updated-IsScoped :
      (guid : String) (dto : UpdateRoleDto) (actor : String) (w v : Desk D) (r : RoleResponse)
      → IsScoped table w.rows
      → update_in_transaction table guid dto actor w ≡ (ok r, v)
      → IsScoped table v.rows
  unfolding update_in_transaction
  updated-IsScoped guid dto actor w v r start h =
      let (u, t, f, k) = bind-ok _ _ h in
      let (role, _, h1) = asked-then _ _ t v r k in
      let (before, _, h2) = asked-then _ _ t v r h1 in
      change_role-IsScoped guid dto actor role before t v r
        (subst (IsScoped table) (sym (super-rows actor u w t f)) start) h2
