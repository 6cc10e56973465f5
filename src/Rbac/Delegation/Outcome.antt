-- ===== src/Rbac/Delegation/Outcome.antt =====
-- What a replacement of roles that returns has checked, and what it has stored.
use rustdesk_console.Common.{
  String, ◌≡◌, refl, ap, ◌∙◌, Bool, true, false, not, ◌&&◌, Option, none, some, List, [], ◌∷◌, map,
  ◌==◌, string_eq, any, all, find?, includes, arith, find?-none,
}
use rustdesk_console.Common.Effects.{ok, pure, throw, when, bind-ok, pure-ok}
use rustdesk_console.Rbac.Database.{User, Database, Assignment, Role}
use rustdesk_console.Rbac.Authorization.{DeniedEvent}
use rustdesk_console.Rbac.Effective.{permissions_of_user}
use rustdesk_console.Rbac.Roles.{RoleError, NormalizedAssignment, group_permissions}
use rustdesk_console.Rbac.Eligibility.{Checks}
use rustdesk_console.Rbac.Delegation.{
  role_guids, refuse, refuse_found, rows_of, roles_of, check_actor,
}
use rustdesk_console.Rbac.Delegation.Replacement.{
  locked_role_guids, check_given_roles, check_taken_roles, check_within,
}
use rustdesk_console.Rbac.Delegation.Bounds.{
  within, auth-ok, get_current_user-ok, check_scope-within,
}

refuse-ok :
    (b : Bool) (e : RoleError) (log log' : List DeniedEvent) (u : Unit {0})
    → refuse b e log ≡ (ok u, log')
    → b ≡ false
unfolding when throw pure
refuse-ok true e log log' u h = ground arith
refuse-ok false e log log' u h = refl

refuse_found-ok :
    {A : Type 0} (name : A → String) (text : String) (o : Option A) (log log' : List DeniedEvent)
    (u : Unit {0})
    → refuse_found name text o log ≡ (ok u, log')
    → o ≡ none
unfolding throw
refuse_found-ok name text none log log' u h = refl
refuse_found-ok name text (some a) log log' u h = ground arith

when-ok :
    (b : Bool) (m : Checks (Unit {0})) (log log' : List DeniedEvent) (u : Unit {0})
    → b ≡ true
    → when b m log ≡ (ok u, log')
    → m log ≡ (ok u, log')
unfolding when
when-ok true m log log' u e h = h
when-ok false m log log' u e h = ground arith

module _ (db : Database) where
  check_actor-ok :
      (actor : String) (account : User) (owner : Bool) (log log' : List DeniedEvent)
      → db.find_user actor ≡ some account
      → check_actor db actor log ≡ (ok owner, log')
      → owner ≡ account.is_admin
  unfolding check_actor
  check_actor-ok actor account owner log log' e h =
      let (user, t, f, g) = bind-ok _ _ h in
      let same = get_current_user-ok db actor account user log t e (auth-ok _ user log t f) in
      let (_, s, _, k) = bind-ok _ _ g in
      (pure-ok user.is_admin owner k).0 ∙ ap (λ x. x.is_admin) same

  -- What an actor who is no owner has been checked for when the checks of the transaction pass: it
  -- changes someone else's roles; the roles that it gives are no protected ones, and none lets its
  -- holder assign roles; it takes no locked role away; and what it gives lies within the scopes of
  -- its own permissions.
  pub record IsDelegated (user actor : String) (account : User)
      (requested : List NormalizedAssignment) : Type 0 where
    pub other : (user == actor) ≡ false
    pub unprotected : any (λ r. r.protected_account) (roles_of db (role_guids requested)) ≡ false
    pub no_assigners :
        any
          (λ r.
            includes
              (group_permissions (rows_of db (role_guids requested)) r.role_guid)
              "roles.assign")
          (rows_of db (role_guids requested))
        ≡ false
    pub kept :
        any
          (λ a.
            not (includes (role_guids requested) a.role_guid)
            && includes
                (locked_role_guids db (map (λ a. a.role_guid) (db.find_assignments (user ∷ []))))
                a.role_guid)
          (db.find_assignments (user ∷ []))
        ≡ false
    pub bounded :
        all
          (within
            (permissions_of_user db actor account.is_admin).scopes
            (group_permissions (rows_of db (role_guids requested))))
          requested
        ≡ true

  check_given_roles-ok :
      (owner : Bool) (guids : List String) (log log' : List DeniedEvent) (u : Unit {0})
      → owner ≡ false
      → check_given_roles db owner guids log ≡ (ok u, log')
      → (any (λ r. r.protected_account) (roles_of db guids) ≡ false)
        × (any
              (λ r. includes (group_permissions (rows_of db guids) r.role_guid) "roles.assign")
              (rows_of db guids)
            ≡ false)
  unfolding check_given_roles
  check_given_roles-ok owner guids log log' u e h =
      let (v, t, f, g) = bind-ok _ _ h in
      let clear =
        refuse_found-ok (λ (r : Role). r.guid) _
          (find? (λ r. r.protected_account) (roles_of db guids)) log t v
          (when-ok (not owner) _ log t v (ap not e) f) in
      let fine = refuse-ok _ _ t log' u g in
      (find?-none (λ (r : Role). r.protected_account) (roles_of db guids) clear, ground arith)

  check_taken_roles-ok :
      (requested_guids : List String) (current : List Assignment) (log log' : List DeniedEvent)
      (u : Unit {0})
      → check_taken_roles db requested_guids current log ≡ (ok u, log')
      → any
          (λ a.
            not (includes requested_guids a.role_guid)
            && includes (locked_role_guids db (map (λ a. a.role_guid) current)) a.role_guid)
          current
        ≡ false
  unfolding check_taken_roles
  check_taken_roles-ok guids current log log' u h =
      find?-none
        (λ (a : Assignment).
          not (includes guids a.role_guid)
          && includes (locked_role_guids db (map (λ a. a.role_guid) current)) a.role_guid)
        current (refuse_found-ok _ _ _ log log' u h)

  -- The check of what an actor who is no owner gives and takes.
  pub check_within-IsDelegated :
      (user : String) (requested : List NormalizedAssignment) (actor : String) (account : User)
      (log log' : List DeniedEvent) (u : Unit {0})
      → db.find_user actor ≡ some account
      → account.is_admin ≡ false
      → check_within db user requested actor log ≡ (ok u, log')
      → IsDelegated user actor account requested
  unfolding check_within
  check_within-IsDelegated user requested actor account log log' u e no_admin h =
      let (owner, t0, f0, h0) = bind-ok _ _ h in
      let no_owner : owner ≡ false = check_actor-ok actor account owner log t0 e f0 ∙ no_admin in
      let (target, t1, f1, h1) = bind-ok _ _ h0 in
      let (_, t2, f2, h2) = bind-ok _ _ h1 in
      let (u3, t3, f3, h3) = bind-ok _ _ h2 in
      let (_, t4, f4, h4) = bind-ok _ _ h3 in
      let (u5, t5, f5, h5) = bind-ok _ _ h4 in
      let (_, t6, f6, h6) = bind-ok _ _ h5 in
      let (_, t7, f7, h7) = bind-ok _ _ h6 in
      let last = when-ok (not owner) _ t7 log' u (ap not no_owner) h7 in
      let (u8, t8, f8, h8) = bind-ok _ _ last in
      let (unprotected, no_assigners) =
        check_given_roles-ok owner (role_guids requested) t4 t5 u5 no_owner f5 in
      let someone_else = refuse-ok (not owner && (user == actor)) _ t2 t3 u3 f3 in
      record {
        other = ground arith;
        unprotected = unprotected;
        no_assigners = no_assigners;
        kept =
            check_taken_roles-ok (role_guids requested) (db.find_assignments (user ∷ [])) t7 t8 u8
              f8;
        bounded = check_scope-within db actor account requested t8 log' u e h8;
      }
