-- ===== src/Strategy/Assignment.antt =====
-- modules/strategy/strategy.service.ts: assigning a strategy to devices, users or device groups, and
-- taking it away, in one transaction with the checks of the actor.
pub mod Idle
pub mod Targets
pub mod Devices
use rustdesk_console.Common.{
  ℕ, String, Bool, true, false, not, ◌&&◌, Option, none, some, List, [], ◌∷◌, map, ◌==◌, string_eq,
  nat_eq, if◌then◌else◌, filter, includes, unique, length,
}
use rustdesk_console.Common.Effects.{
  M, Result, ok, err, pure, throw, get, modify, when, ◌>>=◌, ◌>>◌,
}
use rustdesk_console.Rbac.Database.{Database}
use rustdesk_console.Rbac.Authorization.{Auth, AuthError, DeniedEvent, PermissionScope, is_nil}
use rustdesk_console.Rbac.Protection.{
  TargetType, device, user, device_group, assert_strategy_targets,
}
use rustdesk_console.Strategy.Store.{Strategy, Peer, Holder, Store, Criteria, is_some_guid}
use rustdesk_console.Strategy.Resolution.{Service, invalidate_device_strategy_cache}
use rustdesk_console.Strategy.Changes.{
  StrategyError, denied, missing, bad_request, conflict, syntax, Call, with_rows, find_stored,
}

-- A target that nothing was done for, and why.
pub record TargetError : Type 0 where
  pub target_guid : String
  pub reason : String

abbrev pub missing_reason : TargetType → String
missing_reason device = "Device not found"
missing_reason user = "User does not exist"
missing_reason device_group = "Device group not found"

abbrev pub unbound_reason : TargetType → String
unbound_reason device = "Device is not bound to this strategy"
unbound_reason user = "User is not bound to this strategy"
unbound_reason device_group = "Device group is not bound to this strategy"

abbrev pub changed_reason : TargetType → String
changed_reason device = "Device information has changed, please retry"
changed_reason user = "User information has changed, please retry"
changed_reason device_group = "Device group information has changed, please retry"

abbrev pub as_holder : Peer → Holder
as_holder p = record { guid = p.uuid; strategy_guid = p.strategy_guid }

abbrev pub guids_of : List Holder → List String
guids_of rows = map (λ r. r.guid) rows

abbrev pub as_error : String → String → TargetError
as_error reason target = record { target_guid = target; reason = reason }

-- An update of devices is limited to the groups of the scope.
abbrev pub groups_of : TargetType → PermissionScope → Option (List String)
groups_of device scope = if scope.global then none else some scope.device_group_guids
groups_of _ scope = none

abbrev pub is_device : TargetType → Bool
is_device device = true
is_device _ = false

module _ {D : Type 0} (db : Store D) where
  abbrev pub with_log : List DeniedEvent → Service D → Service D
  with_log log w = record {
    rows = w.rows;
    log = log;
    strategy_object_cache = w.strategy_object_cache;
    device_strategy_cache = w.device_strategy_cache;
  }

  abbrev pub lifted :
      {A : Type 0}
      → Service D
      → Result AuthError A × List DeniedEvent
      → Result StrategyError A × Service D
  lifted w (ok a, log) = (ok a, with_log log w)
  lifted w (err e, log) = (err (denied e), with_log log w)

  -- A check of the authorization service.
  unfoldable pub authorized : {A : Type 0} → (Database → Auth A) → Call D A
  authorized check w = lifted w (check (db.rbac w.rows) w.log)

  abbrev pub undone :
      {A : Type 0}
      → Service D
      → Result StrategyError A × Service D
      → Result StrategyError A × Service D
  undone w (ok a, s) = (ok a, s)
  undone w (err e, s) = (err e, with_rows (db.rolled_back w.rows s.rows) s)

  unfoldable pub transaction : {A : Type 0} → Call D A → Call D A
  transaction m w = undone w (m w)

  abbrev pub find_rows : TargetType → List String → D → List Holder
  find_rows device guids d = map as_holder (db.find_peers guids d)
  find_rows user guids d = db.find_users guids d
  find_rows device_group guids d = db.find_groups guids d

  -- What the check of the targets is asked about: of users, only those that exist.
  abbrev pub checked_targets : TargetType → List String → D → List String
  checked_targets user targets d = guids_of (db.find_users targets d)
  checked_targets _ targets d = targets

  unfoldable pub assert_targets : String → TargetType → List String → Call D PermissionScope
  assert_targets actor target_type targets =
      authorized (λ r. assert_strategy_targets r actor target_type targets)

  -- `update` of the rows that were found, all of which must still match.
  unfoldable pub update_rows :
      TargetType → Criteria → Option String → Call D (Unit {0}) → Call D (Unit {0})
  update_rows target_type criteria value recheck = do
    w ← get
    let result = db.update target_type criteria value w.rows
    modify (with_rows result.1)
    when (not (result.0 == length criteria.guids))
        (do recheck; throw (conflict (changed_reason target_type)))

  -- A transaction, after which the cache of devices is cleared.
  unfoldable pub and_invalidate : {A : Type 0} → Call D A → Call D A
  and_invalidate m = do
    result ← transaction m
    modify (invalidate_device_strategy_cache none)
    pure result

  -- The update of the rows that were found, in the scope of the actor.
  unfoldable pub assign_found :
      String
      → TargetType
      → List String
      → String
      → List String
      → PermissionScope
      → Call D (List String × List TargetError)
  assign_found strategy_guid target_type targets actor_guid found scope = do
    _ ← find_stored db strategy_guid
    when (not (is_nil found)) (
        update_rows target_type
          (record { guids = found; within = groups_of target_type scope; bound_to = none })
          (some strategy_guid)
          (when (is_device target_type)
            (do _ ← assert_targets actor_guid target_type targets; pure tt)))
    pure (
      found,
      map (as_error (missing_reason target_type)) (filter (λ t. not (includes found t)) targets),
    )

  unfoldable pub assign_targets :
      String → TargetType → List String → String → Call D (List String × List TargetError)
  assign_targets strategy_guid target_type targets actor_guid = do
    w ← get
    scope ← assert_targets actor_guid target_type (checked_targets target_type targets w.rows)
    let found = guids_of (find_rows target_type targets w.rows)
    assign_found strategy_guid target_type targets actor_guid found scope

  unfoldable pub assign_strategy :
      String → TargetType → List String → String → Call D (List String × List TargetError)
  assign_strategy strategy_guid target_type target_guids actor_guid =
      and_invalidate (assign_targets strategy_guid target_type (unique target_guids) actor_guid)

  -- The error of a target to unassign, or that there is none.
  abbrev pub unassign_errors :
      TargetType → List String → List String → List String → List TargetError
  unassign_errors target_type existing assigned [] = []
  unassign_errors target_type existing assigned (t ∷ ts) =
      let rest = unassign_errors target_type existing assigned ts in
      if not (includes existing t)
      then as_error (missing_reason target_type) t ∷ rest
      else if not (includes assigned t)
      then as_error (unbound_reason target_type) t ∷ rest
      else rest

  unfoldable pub unassign_targets :
      String → TargetType → List String → String → Call D (List String × List TargetError)
  unassign_targets strategy_guid target_type targets actor_guid = do
    w ← get
    scope ← assert_targets actor_guid target_type (checked_targets target_type targets w.rows)
    _ ← find_stored db strategy_guid
    let rows = find_rows target_type targets w.rows
    let assigned = guids_of (filter (λ r. is_some_guid r.strategy_guid strategy_guid) rows)
    when (not (is_nil assigned)) (
        update_rows target_type
          (record {
            guids = assigned;
            within = groups_of target_type scope;
            bound_to = some strategy_guid;
          })
          none (pure tt))
    pure (assigned, unassign_errors target_type (guids_of rows) assigned targets)

  unfoldable pub unassign_strategy :
      String → TargetType → List String → String → Call D (List String × List TargetError)
  unassign_strategy strategy_guid target_type target_guids actor_guid =
      and_invalidate (unassign_targets strategy_guid target_type (unique target_guids) actor_guid)
