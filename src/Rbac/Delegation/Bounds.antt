-- ===== src/Rbac/Delegation/Bounds.antt =====
-- What an actor who is no owner can give: nothing beyond the scopes of the actor's own permissions.
use rustdesk_console.Common.{
  String, ◌≡◌, refl, sym, ap, ◌∙◌, subst, Bool, true, false, not, ◌&&◌, ◌||◌, Option, none, some,
  List, [], ◌∷◌, ◌++◌, ◌==◌, string_eq, ==_iff, any, all, includes, lookup, put, arith, Bool-cases,
  inl, inr, find?-none,
}
use rustdesk_console.Common.Effects.{Result, ok, err, throw, bind-ok, pure-ok}
use rustdesk_console.Rbac.Database.{User, Database}
use rustdesk_console.Rbac.Authorization.{
  Auth, AuthError, DeniedEvent, is_global, get_current_user, opened,
}
use rustdesk_console.Rbac.Effective.{
  EffectivePermissionScope, EffectivePermissions, permissions_of_user, get_effective_permissions,
}
use rustdesk_console.Rbac.Roles.{NormalizedAssignment, group_permissions}
use rustdesk_console.Rbac.Eligibility.{auth, with_denied, CallerScopes}
use rustdesk_console.Rbac.Delegation.{
  role_guids, refuse_exceeding, Grant, granted_before, extended, Proposed, propose_each, propose,
  exceeds_scope, exceeds, rows_of, check_scope,
}

-- The scope of a permission covers what a request gives it for.
abbrev pub covers : Option EffectivePermissionScope → NormalizedAssignment → Bool
covers none a = false
covers (some s) a =
    s.global
    || (not (is_global a.scope_type) && all (includes s.device_group_guids) a.device_group_guids)

-- All permissions of the role that is requested are covered.
abbrev pub within : CallerScopes → (String → List String) → NormalizedAssignment → Bool
within scopes permissions_of a = all (λ p. covers (scopes p) a) (permissions_of a.role_guid)

all-append : (p : String → Bool) (xs ys : List String) → all p (xs ++ ys) ≡ (all p xs && all p ys)
all-append p [] ys = refl
all-append p (x ∷ xs) ys = ground (arith, all-append p xs ys)

extended-covers :
    (o : Option EffectivePermissionScope) (a : NormalizedAssignment) (g : Grant)
    → exceeds_scope o (extended a g) ≡ false
    → (exceeds_scope o g ≡ false) × (covers o a ≡ true)
extended-covers none a g h = ground arith
extended-covers (some s) a g h =
    let both = all-append (includes s.device_group_guids) g.groups a.device_group_guids in
    (ground arith, ground arith)

module _ (scopes : CallerScopes) where
  -- A proposal that is extended by a request and exceeds nothing did not before, and the request is
  -- covered.
  put-covers :
      (a : NormalizedAssignment) (p : String) (m : Proposed)
      → any (exceeds scopes) (put p (extended a (granted_before (lookup p m))) m) ≡ false
      → (any (exceeds scopes) m ≡ false) × (covers (scopes p) a ≡ true)
  put-covers a p [] h =
      (refl, (extended-covers (scopes p) a (granted_before none) (ground arith)).1)
  put-covers a p ((j, w) ∷ m) h = elim (Bool-cases (j == p)) [
    | inl same ↦
        let key : j ≡ p = (==_iff j p).0 same in
        let (before, covered) = extended-covers (scopes j) a w (ground arith) in
        (ground arith, ap (λ k. covers (scopes k) a) (sym key) ∙ covered)
    | inr other ↦ let (before, covered) = put-covers a p m (ground arith) in (ground arith, covered)
  ]

  propose_each-covers :
      (a : NormalizedAssignment) (ps : List String) (m : Proposed)
      → any (exceeds scopes) (propose_each a ps m) ≡ false
      → (any (exceeds scopes) m ≡ false) × (all (λ p. covers (scopes p) a) ps ≡ true)
  propose_each-covers a [] m h = (h, refl)
  propose_each-covers a (p ∷ ps) m h =
      let (after, rest) =
        propose_each-covers a ps (put p (extended a (granted_before (lookup p m))) m) h in
      let (before, covered) = put-covers a p m after in (before, ground arith)

  propose-within :
      (permissions_of : String → List String) (requested : List NormalizedAssignment) (m : Proposed)
      → any (exceeds scopes) (propose permissions_of requested m) ≡ false
      → (any (exceeds scopes) m ≡ false) × (all (within scopes permissions_of) requested ≡ true)
  unfolding propose
  propose-within permissions_of [] m h = (h, refl)
  propose-within permissions_of (a ∷ as') m h =
      let (after, rest) =
        propose-within permissions_of as' (propose_each a (permissions_of a.role_guid) m) h in
      let (before, covered) = propose_each-covers a (permissions_of a.role_guid) m after in
      (before, ground arith)

  refuse_exceeding-ok :
      (o : Option (String × Grant)) (log log' : List DeniedEvent) (u : Unit {0})
      → refuse_exceeding o log ≡ (ok u, log')
      → o ≡ none
  unfolding throw
  refuse_exceeding-ok none log log' u h = refl
  refuse_exceeding-ok (some (p, g)) log log' u h = ground arith

pub auth-ok :
    {A : Type 0} (m : Auth A) (a : A) (log log' : List DeniedEvent)
    → auth m log ≡ (ok a, log')
    → m log ≡ (ok a, log')
unfolding auth
auth-ok {A} m a log log' h = go (m log) h
  where
    go :
        (r : Result AuthError A × List DeniedEvent)
        → with_denied r ≡ (ok a, log')
        → r ≡ (ok a, log')
    go (ok b, l) e = ground arith
    go (err x, l) e = ground arith

module _ (db : Database) where
  pub get_current_user-ok :
      (actor : String) (account user : User) (log log' : List DeniedEvent)
      → db.find_user actor ≡ some account
      → get_current_user db actor log ≡ (ok user, log')
      → user ≡ account
  unfolding opened
  get_current_user-ok actor account user log log' e h = ground arith

  get_effective_permissions-ok :
      (actor : String) (account : User) (caller : EffectivePermissions)
      (log log' : List DeniedEvent)
      → db.find_user actor ≡ some account
      → get_effective_permissions db actor log ≡ (ok caller, log')
      → caller ≡ permissions_of_user db actor account.is_admin
  unfolding get_effective_permissions
  get_effective_permissions-ok actor account caller log log' e h =
      let (user, t, f, g) = bind-ok _ _ h in
      let same = get_current_user-ok actor account user log t e f in
      (pure-ok _ caller g).0 ∙ ap (λ (u : User). permissions_of_user db actor u.is_admin) same

  -- A request that passes the check of the scope lies within the scopes of the actor.
  pub check_scope-within :
      (actor : String) (account : User) (requested : List NormalizedAssignment)
      (log log' : List DeniedEvent) (u : Unit {0})
      → db.find_user actor ≡ some account
      → check_scope db actor requested log ≡ (ok u, log')
      → all
          (within
            (permissions_of_user db actor account.is_admin).scopes
            (group_permissions (rows_of db (role_guids requested))))
          requested
        ≡ true
  unfolding check_scope
  check_scope-within actor account requested log log' u e h =
      let (caller, t, f, g) = bind-ok _ _ h in
      let same =
        get_effective_permissions-ok actor account caller log t e (auth-ok _ caller log t f) in
      let clear = refuse_exceeding-ok caller.scopes _ t log' u g in
      let permissions_of = group_permissions (rows_of db (role_guids requested)) in
      let none_exceeds =
        find?-none (exceeds caller.scopes) (propose permissions_of requested []) clear in
      subst (λ c. all (within c.scopes permissions_of) requested ≡ true) same
        (propose-within caller.scopes permissions_of requested [] none_exceeds).1
