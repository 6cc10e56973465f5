-- ===== src/Strategy/Assignment/Targets.antt =====
-- What an assignment that returns has done: which devices, which errors, and in which scope.
use rustdesk_console.Common.{
  String, ◌≡◌, refl, sym, ap, ◌⊎◌, ◌∙◌, subst, true, false, not, ◌&&◌, Option, none, some, List, [],
  ◌∷◌, map, filter, includes, ◌==◌, nat_eq, string_eq, ==_iff, length, arith, Bool-cases,
  Option-cases, inl, inr, if◌then◌else◌,
}
use rustdesk_console.Common.Effects.{
  Result, ok, err, pure, throw, get, modify, when, ◌>>=◌, ◌>>◌, continue, bind-ok, pure-ok,
  get-bind,
}
use rustdesk_console.Rbac.Database.{Database}
use rustdesk_console.Rbac.Authorization.{Auth, AuthError, DeniedEvent, PermissionScope, is_nil}
use rustdesk_console.Rbac.Protection.{TargetType, device, assert_strategy_targets}
use rustdesk_console.Strategy.Store.{
  Strategy, Peer, Store, IsStore, Criteria, is_found, over, with_strategy, matches,
}
use rustdesk_console.Strategy.Resolution.{
  Service, invalidate_device_strategy_cache, uncached, cleared,
}
use rustdesk_console.Strategy.Changes.{StrategyError, conflict, Call, with_rows, find_stored, found}
use rustdesk_console.Strategy.Assignment.{
  assign_found, changed_reason, missing_reason, as_holder, guids_of, groups_of, lifted, authorized,
  undone, transaction, and_invalidate, assert_targets, update_rows, assign_targets, as_error,
  TargetError,
}

module _ {D : Type 0} (db : Store D) where
  authorized-ok :
      {A : Type 0} (check : Database → Auth A) (w v : Service D) (a : A)
      → authorized db check w ≡ (ok a, v)
      → (log : List DeniedEvent) × (check (db.rbac w.rows) w.log ≡ (ok a, log)) × (v.rows ≡ w.rows)
  unfolding authorized
  authorized-ok {A} check w v a h = go (check (db.rbac w.rows) w.log) h
    where
      go :
          (r : Result AuthError A × List DeniedEvent)
          → lifted db w r ≡ (ok a, v)
          → (log : List DeniedEvent) × (r ≡ (ok a, log)) × (v.rows ≡ w.rows)
      go (ok b, log) e = (log, ground arith, ground arith)
      go (err x, log) e = ground arith

  find_stored-ok :
      (guid : String) (w v : Service D) (s : Strategy)
      → find_stored db guid w ≡ (ok s, v)
      → (db.find_strategy guid w.rows ≡ some s) × (v ≡ w)
  unfolding ◌>>=◌ get pure throw
  find_stored-ok guid w v s h = elim (Option-cases (db.find_strategy guid w.rows)) [
    | inl e ↦ ground arith
    | inr (t, e) ↦ (ground arith, ground arith)
  ]

  transaction-ok :
      {A : Type 0} (m : Call D A) (w v : Service D) (a : A)
      → transaction db m w ≡ (ok a, v)
      → m w ≡ (ok a, v)
  unfolding transaction
  transaction-ok {A} m w v a h = go (m w) h
    where
      go : (r : Result StrategyError A × Service D) → undone db w r ≡ (ok a, v) → r ≡ (ok a, v)
      go (ok b, s) e = e
      go (err x, s) e = ground arith

  -- A call that ends with a throw does not return.
  never-ok :
      {A B : Type 0} {X : Type 0} (m : Call D A) (e : StrategyError) (w v : Service D) (b : B)
      → (m >>= λ _. throw e) w ≡ (ok b, v)
      → X
  unfolding ◌>>=◌ throw
  never-ok {A} {X} m e w v b h = go (m w) h
    where
      go : (r : Result StrategyError A × Service D) → continue r (λ _. throw e) ≡ (ok b, v) → X
      go (ok a, s) h = ground arith
      go (err x, s) h = ground arith

  ends-ok :
      {A : Type 0} (f : Service D → Service D) (b a : A) (t v : Service D)
      → (modify {E = StrategyError} f >> pure b) t ≡ (ok a, v)
      → (b ≡ a) × (v ≡ f t)
  unfolding ◌>>=◌ modify pure
  ends-ok f b a t v h = (ground arith, ground arith)

  pub and_invalidate-ok :
      {A : Type 0} (m : Call D A) (w v : Service D) (a : A)
      → and_invalidate db m w ≡ (ok a, v)
      → (t : Service D) × (m w ≡ (ok a, t)) × (v ≡ uncached cleared t)
  unfolding and_invalidate invalidate_device_strategy_cache
  and_invalidate-ok m w v a h =
      let (b, t, e, f) = bind-ok (transaction db m) _ h in
      let (same, last) = ends-ok (invalidate_device_strategy_cache none) b a t v f in
      (t, transaction-ok m w t b e ∙ ap (λ x. (ok x, t)) same, last)

  update_rows-ok :
      (t : TargetType) (c : Criteria) (value : Option String) (recheck : Call D (Unit {0}))
      (w v : Service D)
      → update_rows db t c value recheck w ≡ (ok tt, v)
      → (v.rows ≡ (db.update t c value w.rows).1)
        × ((db.update t c value w.rows).0 ≡ length c.guids)
  unfolding update_rows ◌>>=◌ get modify when pure
  update_rows-ok t c value recheck w v h =
      elim (Bool-cases ((db.update t c value w.rows).0 == length c.guids)) [
        | inl same ↦ (ground arith, (==_iff _ (length c.guids)).0 same)
        | inr other ↦
            never-ok
              {X = (v.rows ≡ (db.update t c value w.rows).1)
                × ((db.update t c value w.rows).0 ≡ length c.guids)}
              recheck (conflict (changed_reason t)) (with_rows (db.update t c value w.rows).1 w) v
              tt (ground arith)
      ]

  -- The rows after an update that was made only if there was something to update.
  abbrev pub IsUpdated : Criteria → Option String → D → D → Type 0
  IsUpdated c value d d' =
      (is_nil c.guids ≡ true) × (d' ≡ d)
      ⊎ (d' ≡ (db.update device c value d).1) × ((db.update device c value d).0 ≡ length c.guids)

  abbrev pub criteria : List String → PermissionScope → Criteria
  criteria found scope = record { guids = found; within = groups_of device scope; bound_to = none }

  when_some-ok :
      (c : Criteria) (value : Option String) (recheck : Call D (Unit {0})) (w v : Service D)
      → when (not (is_nil c.guids)) (update_rows db device c value recheck) w ≡ (ok tt, v)
      → IsUpdated c value w.rows v.rows
  unfolding when pure
  when_some-ok c value recheck w v h = elim (Bool-cases (is_nil c.guids)) [
    | inl empty ↦ inl (empty, ground arith)
    | inr more ↦ inr (update_rows-ok device c value recheck w v (ground arith))
  ]

  -- What an assignment of devices found, and what it made of the rows.
  abbrev pub Assigned :
      String
      → List String
      → PermissionScope
      → List String
      → D
      → D
      → List String
      → List TargetError
      → Type 0
  Assigned guid targets scope found d d' success errors =
      (s : Strategy) × (db.find_strategy guid d ≡ some s)
      × (success ≡ found)
      × (errors
          ≡ map (as_error (missing_reason device)) (filter (λ t. not (includes found t)) targets))
      × IsUpdated (criteria found scope) (some guid) d d'

  assign_found-ok :
      (guid : String) (targets : List String) (actor : String) (found : List String)
      (scope : PermissionScope) (w v : Service D) (success : List String)
      (errors : List TargetError)
      → assign_found db guid device targets actor found scope w ≡ (ok (success, errors), v)
      → Assigned guid targets scope found w.rows v.rows success errors
  unfolding assign_found
  assign_found-ok guid targets actor found scope w v success errors h =
      let (s, t1, f, h1) = bind-ok _ _ h in
      let (stored, same) = find_stored-ok guid w t1 s f in
      let (_, t2, g, h2) = bind-ok _ _ h1 in
      let (results, last) = pure-ok _ (success, errors) h2 in
      let done = when_some-ok (criteria found scope) (some guid) _ t1 t2 g in
      (
        s,
        stored,
        ap (λ r. r.0) results,
        ap (λ r. r.1) results,
        subst (λ x. IsUpdated (criteria found scope) (some guid) x.rows v.rows) same
            (subst (λ x. IsUpdated (criteria found scope) (some guid) t1.rows x.rows) (sym last)
              done),
      )

  -- The devices of the targets that exist.
  abbrev pub found_devices : List String → D → List String
  found_devices targets d = guids_of (map as_holder (db.find_peers targets d))

  pub assign_targets-ok :
      (guid : String) (targets : List String) (actor : String) (w v : Service D)
      (success : List String) (errors : List TargetError)
      → assign_targets db guid device targets actor w ≡ (ok (success, errors), v)
      → (scope : PermissionScope) × (log : List DeniedEvent) × (assert_strategy_targets
            (db.rbac w.rows)
            actor
            device
            targets
            w.log
          ≡ (ok scope, log))
        × Assigned guid targets scope (found_devices targets w.rows) w.rows v.rows success errors
  unfolding assign_targets assert_targets
  assign_targets-ok guid targets actor w v success errors h =
      let (scope, t, f, h1) = bind-ok _ _ (get-bind _ h) in
      let (log, allowed, same) = authorized-ok _ w t scope f in
      let done =
        assign_found-ok guid targets actor (found_devices targets w.rows) scope t v success errors
          h1 in
      (
        scope,
        log,
        allowed,
        subst
            (λ d.
              Assigned guid targets scope (found_devices targets w.rows) d v.rows success errors)
            same done,
      )

module _ {D : Type 0} (db : Store D) (laws : IsStore db) where
  guids_of-includes :
      (ps : List Peer) (u : String)
      → includes (guids_of (map as_holder ps)) u ≡ includes (map (λ (p : Peer). p.uuid) ps) u
  guids_of-includes [] u = refl
  guids_of-includes (p ∷ ps) u = rw (guids_of-includes ps u)

  pub found_devices-includes :
      (targets : List String) (d : D) (u : String)
      → includes (found_devices db targets d) u
        ≡ (includes targets u && is_found (db.find_peer u d))
  found_devices-includes targets d u =
      guids_of-includes (db.find_peers targets d) u ∙ laws.find_peers-includes targets d u

  pub includes-nil : (l : List String) (u : String) → is_nil l ≡ true → includes l u ≡ false
  includes-nil [] u h = refl
  includes-nil (x ∷ xs) u h = ground arith

  -- Of a row that is found, an update of all keys changes it exactly if its key is one of them.
  pub matches-includes :
      (c : Criteria) (value : Option String) (d : D) (u : String) (p : Peer)
      → (db.update device c value d).0 ≡ length c.guids
      → db.find_peer u d ≡ some p
      → matches c p ≡ includes c.guids u
  matches-includes c value d u p all row = elim (Bool-cases (includes c.guids u)) [
    | inl asked ↦
        let (q, at, matching) = laws.update-all c value d all u asked in
        let same : q ≡ p = cc in rw asked (subst (λ x. matches c x ≡ true) same matching)
    | inr other ↦
        let key = laws.find_peer-uuid u d p row in
        let out : includes c.guids p.uuid ≡ false = ap (includes c.guids) key ∙ other in
        ground arith
  ]

  updated_row :
      (c : Criteria) (value : Option String) (u : String) (o : Option Peer)
      → ((p : Peer) → o ≡ some p → matches c p ≡ includes c.guids u)
      → over (λ p. if matches c p then with_strategy value p else p) o
        ≡ over (λ p. if includes c.guids u then with_strategy value p else p) o
  updated_row c value u none h = refl
  updated_row c value u (some p) h = rw (h p refl)

  same_row :
      (c : Criteria) (value : Option String) (u : String) (o : Option Peer)
      → includes c.guids u ≡ false
      → o ≡ over (λ p. if includes c.guids u then with_strategy value p else p) o
  same_row c value u none h = refl
  same_row c value u (some p) h = rw h

  -- Every device among the keys has been updated, and no other.
  pub updated-peer :
      (c : Criteria) (value : Option String) (d d' : D) (u : String)
      → IsUpdated db c value d d'
      → db.find_peer u d'
        ≡ over (λ p. if includes c.guids u then with_strategy value p else p) (db.find_peer u d)
  updated-peer c value d d' u (inl (empty, same)) =
      ap (db.find_peer u) same
      ∙ same_row c value u (db.find_peer u d) (includes-nil c.guids u empty)
  updated-peer c value d d' u (inr (same, all)) =
      ap (db.find_peer u) same
      ∙ laws.find_peer-update u c value d
      ∙ updated_row c value u (db.find_peer u d) (λ p row. matches-includes c value d u p all row)
