-- ===== src/Rbac/Authorization/Access.antt =====
-- Who gets through: access to devices decided by the rows of the tables, and what is audited.
use rustdesk_console.Common.{
  String, ◌≡◌, refl, ap, ◌∙◌, if◌then◌else◌, Bool, true, false, not, ◌&&◌, ◌||◌, Option, none, some,
  List, [], ◌∷◌, ◌==◌, string_eq, all, unique, arith, Option-cases, inl, inr, find?-none, any-false,
}
use rustdesk_console.Common.Effects.{Result, ok, err, continue, pure, branch, ◌>>=◌}
use rustdesk_console.Rbac.Catalog.{is_assignable_permission_code}
use rustdesk_console.Rbac.Database.{User, Peer, Database, Tables, IsDatabase}
use rustdesk_console.Rbac.Authorization.{
  Auth, unless_denied, denied_peer, AuthError, DeniedEvent, PermissionScope, truthy, is_active,
  is_nil, is_outside, holds_guid, require_permission, assert_device_access, assert_devices_access,
  load_effective_role_grants, granted_scope, opened,
}
use rustdesk_console.Rbac.Authorization.Scope.{
  global_by, in_group, granted_scope-global, granted_scope-groups,
}

abbrev pub is_ok : {E A S : Type 0} → Result E A × S → Bool
is_ok (ok a, s) = true
is_ok (err e, s) = false

module _ (t : Tables) where
  -- A user may reach a group's devices: as an administrator, or by an assignment that gives the
  -- permission globally or for that group.
  abbrev pub named_group : String → String → Option String → Bool
  named_group user code none = false
  named_group user code (some g) = not (g == "") && in_group t user code g

  abbrev pub reaches : User → String → String → Option String → Bool
  reaches account user code group =
      account.is_admin || (global_by t user code || named_group user code group)

  abbrev pub may_reach_found : Option Peer → User → String → String → Bool
  may_reach_found none account user code = false
  may_reach_found (some peer) account user code =
      is_active account.status
      && (is_assignable_permission_code code && reaches account user code peer.device_group_guid)

  abbrev pub may_reach : Option User → Option Peer → String → String → Bool
  may_reach none peer user code = false
  may_reach (some account) peer user code = may_reach_found peer account user code

module _ (t : Tables) (db : Database) (is_db : IsDatabase t db) where
  granted : String → String → PermissionScope
  granted user code = granted_scope db (load_effective_role_grants db user) code

  granted-outside :
      (user code : String) (peer : Peer) (o : Option String)
      → (not (truthy o) || not (holds_guid (granted user code).device_group_guids o))
        ≡ not (not (global_by t user code) && named_group t user code o)
  unfolding granted
  granted-outside user code peer none = ground arith
  granted-outside user code peer (some g) =
      ground (arith, granted_scope-groups t db is_db user code g)

  nil-outside :
      (guids : List String) (o : Option String) → is_nil guids ≡ true → holds_guid guids o ≡ false
  nil-outside [] none h = refl
  nil-outside [] (some g) h = refl
  nil-outside (x ∷ xs) o h = cc

  found-is_ok :
      (user code device : String) (log : List DeniedEvent) (account : User) (peer : Peer)
      → db.find_user user ≡ some account
      → db.find_peer device ≡ some peer
      → is_ok (assert_device_access db user code device log)
        ≡ may_reach_found t (some peer) account user code
  unfolding opened granted
  found-is_ok user code device log account peer e f = ground (
    arith,
    granted_scope-global t db is_db user code,
    granted-outside user code peer peer.device_group_guid,
    nil-outside (granted user code).device_group_guids peer.device_group_guid,
  )

  as_found :
      (user code : String) {device : String} {account : User} {peer : Peer}
      → db.find_user user ≡ some account
      → db.find_peer device ≡ some peer
      → may_reach_found t (some peer) account user code
        ≡ may_reach t (db.find_user user) (db.find_peer device) user code
  as_found user code e f = rw (e, f)

  -- Over queries that answer from the tables, the access to a device is granted exactly when the
  -- account exists and is active, the code is one that roles can have, the device exists, and the
  -- account is an administrator or the rows of the tables give it the permission globally or for
  -- the group of the device.
  pub assert_device_access-is_ok :
      (user code device : String) (log : List DeniedEvent)
      → is_ok (assert_device_access db user code device log)
        ≡ may_reach t (db.find_user user) (db.find_peer device) user code
  unfolding opened
  assert_device_access-is_ok user code device log = elim (Option-cases (db.find_user user)) [
    | inl unknown ↦ ground arith
    | inr (account, e) ↦ elim (Option-cases (db.find_peer device)) [
      | inl missing ↦ ground arith
      | inr (peer, f) ↦ found-is_ok user code device log account peer e f ∙ as_found user code e f
    ]
  ]

-- No device of the list is outside the scope.
abbrev pub inside : PermissionScope → List Peer → Bool
inside scope peers = scope.global || all (λ p. not (is_outside scope p)) peers

module _ (db : Database) where
  -- A permission check audits nothing.
  pub require_permission-log :
      (user code : String) (log : List DeniedEvent) → (require_permission db user code log).1 ≡ log
  unfolding opened
  require_permission-log user code log = ground arith

  -- The rest of the call, after the scope is known.
  abbrev batch :
      String
      → String
      → List String
      → List Peer
      → PermissionScope
      → Auth (List Peer × PermissionScope)
  batch user code asked peers scope = branch (is_nil asked) (pure ([], scope)) (
      unless_denied (denied_peer scope peers) user code
        "Batch request contains unauthorized devices" (pure (peers, scope)))

  none_denied :
      (scope : PermissionScope) (peers : List Peer)
      → denied_peer scope peers ≡ none
      → inside scope peers ≡ true
  none_denied scope peers h = ground (
    arith,
    find?-none (is_outside scope) peers,
    any-false (is_outside scope) (λ p. not (is_outside scope p)) peers (λ p e. rw e),
  )

  batch-inside :
      (user code : String) (asked : List String) (found : List Peer) (scope : PermissionScope)
      (log log' : List DeniedEvent) (peers : List Peer) (scope' : PermissionScope)
      → batch user code asked found scope log ≡ (ok (peers, scope'), log')
      → (log' ≡ log) × (inside scope' peers ≡ true)
  unfolding opened
  batch-inside user code asked found scope log log' peers scope' h =
      elim (Option-cases (denied_peer scope found)) [
        | inl fine ↦ (ground arith, ground (arith, none_denied scope found fine))
        | inr (p, e) ↦ (ground arith, ground arith)
      ]

  batch_after :
      (user code : String) (asked : List String) (found : List Peer) (log log' : List DeniedEvent)
      (r : Result AuthError PermissionScope × List DeniedEvent) (peers : List Peer)
      (scope' : PermissionScope)
      → r.1 ≡ log
      → continue r (batch user code asked found) ≡ (ok (peers, scope'), log')
      → (log' ≡ log) × (inside scope' peers ≡ true)
  batch_after user code asked found log log' (ok scope, s) peers scope' e h =
      let (same, fine) = batch-inside user code asked found scope s log' peers scope' h in
      (same ∙ e, fine)
  batch_after user code asked found log log' (err x, s) peers scope' e h = (cc, cc)

  -- If a batch of devices is let through, no device of it is outside the scope that is returned with
  -- it, and nothing has been added to the audit.
  pub assert_devices_access-inside :
      (user code : String) (devices : List String) (log log' : List DeniedEvent) (peers : List Peer)
      (scope : PermissionScope)
      → assert_devices_access db user code devices log ≡ (ok (peers, scope), log')
      → (log' ≡ log) × (inside scope peers ≡ true)
  unfolding assert_devices_access ◌>>=◌
  assert_devices_access-inside user code devices log log' peers scope h =
      batch_after user code (unique devices) (db.find_peers (unique devices)) log log'
        (require_permission db user code log) peers scope (require_permission-log user code log) h

-- What the audit keeps of a refused access to a device.
abbrev pub denied_event : String → String → String → DeniedEvent
denied_event user code device = record {
  actor_user_guid = user;
  target_type = "device";
  target_guid = some device;
  action = code;
  reason = "Device is not in an authorized device group";
}

abbrev pub is_found : Option Peer → Bool
is_found none = false
is_found (some peer) = true

-- An access that is let through, and one that fails before the device is looked at, audits nothing.
audit_of_result :
    (db : Database) (user code device : String) (log : List DeniedEvent)
    → (assert_device_access db user code device log).1 ≡ (
        if is_ok (require_permission db user code log)
          && (is_found (db.find_peer device)
              && not (is_ok (assert_device_access db user code device log)))
        then denied_event user code device ∷ log
        else log)
unfolding opened
audit_of_result db user code device log = elim (Option-cases (db.find_peer device)) [
  | inl missing ↦ ground arith
  | inr (peer, f) ↦ ground arith
]

module _ (t : Tables) (db : Database) (is_db : IsDatabase t db) where
  -- Over queries that answer from the tables, a call for one device adds exactly one event to the
  -- audit, with the actor, the device and the permission, when the caller's permission check
  -- succeeds, the device exists, and the rows of the tables do not give the caller the device; in
  -- all other cases, an access that is granted included, it adds nothing.
  pub assert_device_access-audit :
      (user code device : String) (log : List DeniedEvent)
      → (assert_device_access db user code device log).1 ≡ (
          if is_ok (require_permission db user code log)
            && (is_found (db.find_peer device)
                && not (may_reach t (db.find_user user) (db.find_peer device) user code))
          then denied_event user code device ∷ log
          else log)
  assert_device_access-audit user code device log =
      audit_of_result db user code device log
      ∙ ap
          (λ b.
            if is_ok (require_permission db user code log)
              && (is_found (db.find_peer device) && not b)
            then denied_event user code device ∷ log
            else log)
          (assert_device_access-is_ok t db is_db user code device log)
