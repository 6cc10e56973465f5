-- ===== src/Strategy/Assignment/Devices.antt =====
-- An assignment of devices as a whole: what it reports, what it changes, and what is looked up next.
use rustdesk_console.Common.{
  String, ◌≡◌, refl, sym, ap, ◌∙◌, Bool, true, not, ◌&&◌, Option, none, some, List, [], ◌∷◌, map,
  filter, includes, string_eq, unique, arith, inl, inr, if◌then◌else◌, includes-unique,
  includes-filter,
}
use rustdesk_console.Common.Effects.{ok}
use rustdesk_console.Rbac.Authorization.{DeniedEvent, PermissionScope, truthy}
use rustdesk_console.Rbac.Protection.{device, assert_strategy_targets}
use rustdesk_console.Strategy.Store.{
  Strategy, Peer, Store, IsStore, Criteria, is_found, over, with_strategy, in_groups,
}
use rustdesk_console.Strategy.Resolution.{
  Service, cleared, find_strategy_for_peer, resolve_strategy_for_peer,
}
use rustdesk_console.Strategy.Assignment.{
  TargetError, groups_of, as_error, assign_strategy, missing_reason,
}
use rustdesk_console.Strategy.Assignment.Targets.{
  IsUpdated, criteria, found_devices, and_invalidate-ok, assign_targets-ok, found_devices-includes,
  includes-nil, updated-peer, matches-includes,
}

abbrev pub error_guids : List TargetError → List String
error_guids errors = map (λ e. e.target_guid) errors

error_guids-includes :
    (reason : String) (l : List String) (u : String)
    → includes (error_guids (map (as_error reason) l)) u ≡ includes l u
error_guids-includes reason [] u = refl
error_guids-includes reason (x ∷ xs) u = rw (error_guids-includes reason xs u)

module _ {D : Type 0} (db : Store D) where
  -- Of a target that is a device, an assignment reports success, and of another, an error; the
  -- devices of success get the strategy, and no device is changed otherwise; the devices of success
  -- lie in the scope that the actor was checked for; the strategies are unchanged, and what was
  -- cached of the devices is emptied.
  pub record IsAssigned (guid actor : String) (targets success : List String)
      (errors : List TargetError) (w v : Service D) : Type 0 where
    pub reported :
        (u : String) → includes success u ≡ (includes targets u && is_found (db.find_peer u w.rows))
    pub refused :
        (u : String)
        → includes (error_guids errors) u
          ≡ (includes targets u && not (is_found (db.find_peer u w.rows)))
    pub rows :
        (u : String)
        → db.find_peer u v.rows
          ≡ over
              (λ p. if includes success u then with_strategy (some guid) p else p)
              (db.find_peer u w.rows)
    pub allowed :
        (scope : PermissionScope) × (log : List DeniedEvent) × (assert_strategy_targets
            (db.rbac w.rows)
            actor
            device
            (unique targets)
            w.log
          ≡ (ok scope, log))
        × ((u : String) (p : Peer)
            → includes success u ≡ true
            → db.find_peer u w.rows ≡ some p
            → in_groups (groups_of device scope) p.device_group_guid ≡ true)
    pub strategies : (g : String) → db.find_strategy g v.rows ≡ db.find_strategy g w.rows
    pub emptied : v.device_strategy_cache ≡ cleared
    pub strategy : (s : Strategy) × (db.find_strategy guid w.rows ≡ some s)

module _ {D : Type 0} (db : Store D) (laws : IsStore db) where
  in_scope :
      (found : List String) (scope : PermissionScope) (value : Option String) (d d' : D)
      → IsUpdated db (criteria db found scope) value d d'
      → (u : String) (p : Peer) → includes found u ≡ true
      → db.find_peer u d ≡ some p
      → in_groups (groups_of device scope) p.device_group_guid ≡ true
  in_scope found scope value d d' (inl (empty, same)) u p asked row =
      let out = includes-nil db laws found u empty in ground arith
  in_scope found scope value d d' (inr (same, all)) u p asked row =
      let yes = matches-includes db laws (criteria db found scope) value d u p all row in
      ground arith

  updated-strategy :
      (c : Criteria) (value : Option String) (d d' : D) (g : String)
      → IsUpdated db c value d d'
      → db.find_strategy g d' ≡ db.find_strategy g d
  updated-strategy c value d d' g (inl (empty, same)) = ap (db.find_strategy g) same
  updated-strategy c value d d' g (inr (same, all)) =
      ap (db.find_strategy g) same ∙ laws.find_strategy-update g device c value d

  refused_by :
      (targets found : List String) (d : D) (u : String)
      → ((u : String)
          → includes found u ≡ (includes (unique targets) u && is_found (db.find_peer u d)))
      → includes
          (error_guids (
            map
              (as_error (missing_reason device))
              (filter (λ t. not (includes found t)) (unique targets))))
          u
        ≡ (includes targets u && not (is_found (db.find_peer u d)))
  refused_by targets found d u h =
      error_guids-includes (missing_reason device)
        (filter (λ t. not (includes found t)) (unique targets)) u
      ∙ includes-filter (λ t. not (includes found t)) (unique targets) u
      ∙ ground (arith, h u, includes-unique targets u)

  -- If an assignment of a strategy to devices returns, the strategy exists; each target that is a
  -- device is reported as a success and each other target as an error; the devices of success have
  -- the strategy, every device is unchanged otherwise, and each device of success lies in the scope
  -- that the checks of the actor returned; no strategy is changed, and no device is cached any more.
  pub assign_strategy-IsAssigned :
      (guid actor : String) (targets : List String) (w v : Service D) (success : List String)
      (errors : List TargetError)
      → assign_strategy db guid device targets actor w ≡ (ok (success, errors), v)
      → IsAssigned db guid actor targets success errors w v
  unfolding assign_strategy
  assign_strategy-IsAssigned guid actor targets w v success errors h =
      let (t, f, cleared_after) = and_invalidate-ok db _ w v (success, errors) h in
      let (scope, log, checked, result) =
        assign_targets-ok db guid (unique targets) actor w t success errors f in
      let (s, stored, as_found, as_refused, done) = result in
      let found = found_devices db (unique targets) w.rows in
      let counted = λ (u : String). found_devices-includes db laws (unique targets) w.rows u in
      record {
        reported = λ u.
            ap (λ l. includes l u) as_found
            ∙ counted u
            ∙ ap (λ b. b && is_found (db.find_peer u w.rows)) (includes-unique targets u);
        refused = λ u.
            ap (λ l. includes (error_guids l) u) as_refused
            ∙ refused_by targets found w.rows u counted;
        rows = λ u.
            ap (λ x. db.find_peer u x.rows) cleared_after
            ∙ updated-peer db laws (criteria db found scope) (some guid) w.rows t.rows u done
            ∙ ap
                (λ l.
                  over (λ p. if includes l u then with_strategy (some guid) p else p)
                    (db.find_peer u w.rows))
                (sym as_found);
        allowed = (
          scope,
          log,
          checked,
          λ u p asked row.
              in_scope found scope (some guid) w.rows t.rows done u p
                (ap (λ l. includes l u) (sym as_found) ∙ asked) row,
        );
        strategies = λ g.
            ap (λ x. db.find_strategy g x.rows) cleared_after
            ∙ updated-strategy (criteria db found scope) (some guid) w.rows t.rows g done;
        emptied = ap (λ x. x.device_strategy_cache) cleared_after;
        strategy = (s, stored);
      }

  -- The lookup for a device that has a strategy of its own, when nothing is cached of it.
  find-own :
      (p : Peer) (v : Service D) (guid : String) (s : Strategy)
      → v.device_strategy_cache p.uuid ≡ none
      → p.strategy_guid ≡ some guid
      → truthy (some guid) ≡ true
      → db.find_strategy guid v.rows ≡ some s
      → (find_strategy_for_peer db p v).0 ≡ some s
  unfolding find_strategy_for_peer resolve_strategy_for_peer
  find-own p v guid s empty own named stored = rw (empty, own) (ground arith)

  assigned_own :
      (b : Bool) (guid : String) (o : Option Peer) (p : Peer)
      → b ≡ true
      → over (λ q. if b then with_strategy (some guid) q else q) o ≡ some p
      → p.strategy_guid ≡ some guid
  assigned_own b guid none p h e = ground arith
  assigned_own b guid (some q) p h e = ground arith

  -- After an assignment of a strategy to devices that returns, the next lookup for a device that it
  -- reported as a success, with the row that is stored then, returns the strategy, if its identifier
  -- is not empty.
  pub assign_strategy-find_strategy_for_peer :
      (guid actor : String) (targets : List String) (w v : Service D) (success : List String)
      (errors : List TargetError)
      → assign_strategy db guid device targets actor w ≡ (ok (success, errors), v)
      → truthy (some guid) ≡ true
      → (u : String) (p : Peer) → includes success u ≡ true
      → db.find_peer u v.rows ≡ some p
      → (s : Strategy) × (db.find_strategy guid w.rows ≡ some s)
        × ((find_strategy_for_peer db p v).0 ≡ some s)
  assign_strategy-find_strategy_for_peer guid actor targets w v success errors h named u p asked
        row =
      let done = assign_strategy-IsAssigned guid actor targets w v success errors h in
      let (s, stored) = done.strategy in
      let own =
        assigned_own (includes success u) guid (db.find_peer u w.rows) p asked
          (sym (done.rows u) ∙ row) in
      (
        s,
        stored,
        find-own p v guid s (ap (λ m. m p.uuid) done.emptied) own named
            (done.strategies guid ∙ stored),
      )
