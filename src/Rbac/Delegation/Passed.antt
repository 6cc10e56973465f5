-- ===== src/Rbac/Delegation/Passed.antt =====
-- A replacement of roles that returns: what it has passed, and what it was allowed for.
use rustdesk_console.Common.{
  ℕ, String, ◌≡◌, sym, ap, ◌∙◌, subst, false, some, List, string_eq, arith,
}
use rustdesk_console.Common.Effects.{
  Result, ok, err, pure, throw, modify, bind-ok, pure-ok, get-bind,
}
use rustdesk_console.Rbac.Database.{User, Database, Role, DeviceGroup}
use rustdesk_console.Rbac.Authorization.{DeniedEvent}
use rustdesk_console.Rbac.Roles.{
  RoleError, UserRoleAssignmentDto, NormalizedAssignment, validate_assignments, LoadedAssignment,
  Scopes,
}
use rustdesk_console.Rbac.Eligibility.{Checks}
use rustdesk_console.Rbac.Delegation.Replacement.{
  lift, check_before, check_within, RoleStore, RoleService, checks, after_checks, transaction,
  undone, write_roles, replace_in_transaction, get_user_roles, replace_user_roles,
}
use rustdesk_console.Rbac.Delegation.Outcome.{IsDelegated, check_within-IsDelegated}

lift-ok :
    {A : Type 0} (r : Result RoleError A) (a : A) (log log' : List DeniedEvent)
    → lift r log ≡ (ok a, log')
    → r ≡ ok a
unfolding pure throw
lift-ok (ok b) a log log' h = ground arith
lift-ok (err e) a log log' h = ground arith

check_before-ok :
    (db : Database) (roles : List Role) (groups : List DeviceGroup) (user : String)
    (dtos : List UserRoleAssignmentDto) (actor : String) (requested : List NormalizedAssignment)
    (log log' : List DeniedEvent)
    → check_before db roles groups user dtos actor log ≡ (ok requested, log')
    → validate_assignments dtos ≡ ok requested
unfolding check_before
check_before-ok db roles groups user dtos actor requested log log' h =
    let (asked, t0, f0, h0) = bind-ok _ _ h in
    let (_, t1, _, h1) = bind-ok _ _ h0 in
    let (_, t2, _, h2) = bind-ok _ _ h1 in
    let (owner, t3, _, h3) = bind-ok _ _ h2 in
    let (target, t4, _, h4) = bind-ok _ _ h3 in
    let (_, t5, _, h5) = bind-ok _ _ h4 in
    let (_, t6, _, h6) = bind-ok _ _ h5 in
    lift-ok (validate_assignments dtos) asked log t0 f0 ∙ ap ok (sym (pure-ok asked requested h6).0)

module _ {D : Type 0} (store : RoleStore D) where
  checks-ok :
      {A : Type 0} (m : Database → Checks A) (a : A) (w v : RoleService D)
      → checks store m w ≡ (ok a, v)
      → (m (store.rbac w.rows) w.log ≡ (ok a, v.log)) × (v.rows ≡ w.rows)
  unfolding checks
  checks-ok {A} m a w v h = go (m (store.rbac w.rows) w.log) h
    where
      go :
          (r : Result RoleError A × List DeniedEvent)
          → after_checks store w.rows r ≡ (ok a, v)
          → (r ≡ (ok a, v.log)) × (v.rows ≡ w.rows)
      go (ok b, log) e = (ground arith, ground arith)
      go (err x, log) e = (ground arith, ground arith)

  transaction-ok :
      {A : Type 0} (m : RoleService D → Result RoleError A × RoleService D) (a : A)
      (w v : RoleService D)
      → transaction store m w ≡ (ok a, v)
      → m w ≡ (ok a, v)
  unfolding transaction
  transaction-ok {A} m a w v h = go (m w) h
    where
      go :
          (r : Result RoleError A × RoleService D)
          → undone store w.rows r ≡ (ok a, v)
          → r ≡ (ok a, v)
      go (ok b, s) e = e
      go (err x, s) e = ground arith

  modify-ok :
      (f : RoleService D → RoleService D) (u : Unit {0}) (w v : RoleService D)
      → modify {E = RoleError} f w ≡ (ok u, v)
      → v ≡ f w
  unfolding modify
  modify-ok f u w v h = ground arith

  get_user_roles-rows :
      (user : String) (r : List LoadedAssignment × Scopes) (w v : RoleService D)
      → get_user_roles store user w ≡ (ok r, v)
      → v.rows ≡ w.rows
  unfolding get_user_roles
  get_user_roles-rows user r w v h =
      let (target, t, f, g) = bind-ok _ _ h in
      ap (λ s. s.rows) (pure-ok _ r (get-bind _ g)).1 ∙ (checks-ok _ target w t f).1

  module _ (uuid : ℕ → String) where
    -- A replacement that returns has passed the checks of the transaction, and has then written.
    pub replace_user_roles-ok :
        (user : String) (dtos : List UserRoleAssignmentDto) (actor : String)
        (r : List LoadedAssignment × Scopes) (w v : RoleService D)
        → replace_user_roles store uuid user dtos actor w ≡ (ok r, v)
        → (requested : List NormalizedAssignment) × (validate_assignments dtos ≡ ok requested)
          × (log : List DeniedEvent) × (log' : List DeniedEvent) × (check_within
                (store.rbac w.rows)
                user
                requested
                actor
                log
              ≡ (ok tt, log'))
          × (v.rows ≡ write_roles store uuid user requested actor w.rows)
    unfolding replace_user_roles replace_in_transaction
    replace_user_roles-ok user dtos actor r w v h =
        let (requested, t0, f0, h0) = bind-ok _ _ (get-bind _ h) in
        let (before, same0) = checks-ok _ requested w t0 f0 in
        let (_, t1, f1, h1) = bind-ok _ _ h0 in
        let (_, t2, f2, h2) = bind-ok _ _ (transaction-ok _ tt t0 t1 f1) in
        let (passed, same2) = checks-ok _ tt t0 t2 f2 in
        let written = modify-ok _ tt t2 t1 h2 in
        (
          requested,
          check_before-ok _ _ _ user dtos actor requested w.log t0.log before,
          t0.log,
          t2.log,
          subst (λ d. check_within (store.rbac d) user requested actor t0.log ≡ (ok tt, t2.log))
              same0 passed,
          get_user_roles-rows user r t1 v h1
              ∙ ap (λ s. s.rows) written
              ∙ ap (write_roles store uuid user requested actor) (same2 ∙ same0),
        )

    -- If an actor who is no super administrator replaces the roles of a user and the call returns,
    -- then the requests were valid, the user is not the actor, no role that is given is protected or
    -- lets its holder assign roles, no role that is locked (protected, or with that permission) was
    -- taken away, and for every permission of every role that is given, the actor holds it globally,
    -- or it is given for device groups that all lie in the actor's own scope of it.
    pub replace_user_roles-IsDelegated :
        (user : String) (dtos : List UserRoleAssignmentDto) (actor : String) (account : User)
        (r : List LoadedAssignment × Scopes) (w v : RoleService D)
        → replace_user_roles store uuid user dtos actor w ≡ (ok r, v)
        → (store.rbac w.rows).find_user actor ≡ some account
        → account.is_admin ≡ false
        → (requested : List NormalizedAssignment) × (validate_assignments dtos ≡ ok requested)
          × IsDelegated (store.rbac w.rows) user actor account requested
    replace_user_roles-IsDelegated user dtos actor account r w v h e no_admin =
        let (requested, valid, log, log', passed, _) =
          replace_user_roles-ok user dtos actor r w v h in
        (
          requested,
          valid,
          check_within-IsDelegated (store.rbac w.rows) user requested actor account log log' tt e
              no_admin passed,
        )
