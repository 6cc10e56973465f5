-- ===== src/Strategy/Assignment/Idle.antt =====
-- What an assignment leaves alone until it is done: the caches, and the strategies themselves.
use rustdesk_console.Common.{
  String, ◌≡◌, refl, sym, ap, ◌∙◌, subst, Option, none, some, List, nat_eq, string_eq, unique,
  arith,
}
use rustdesk_console.Common.Effects.{
  Result, ok, err, pure, modify, ◌>>=◌, continue, After, Triple, Triple-bind, Triple-then,
  Triple-weaken, Triple-get, Triple-pure, Triple-throw, Triple-when, Triple-modify,
}
use rustdesk_console.Rbac.Database.{Database}
use rustdesk_console.Rbac.Authorization.{Auth, AuthError, DeniedEvent}
use rustdesk_console.Rbac.Protection.{TargetType}
use rustdesk_console.Strategy.Store.{Strategy, Store, IsStore, Criteria}
use rustdesk_console.Strategy.Resolution.{
  resolve_strategy_for_peer, Service, invalidate_device_strategy_cache, uncached, cleared,
}
use rustdesk_console.Strategy.Coherence.{IsCoherent, guid_of}
use rustdesk_console.Strategy.Changes.{StrategyError, Call, with_rows, find_stored, found}
use rustdesk_console.Strategy.Assignment.{
  assign_found, and_invalidate, lifted, authorized, undone, transaction, assert_targets,
  update_rows, assign_targets, assign_strategy, unassign_targets, unassign_strategy,
}

module _ {D : Type 0} (db : Store D) (laws : IsStore db) where
  abbrev Keeps : {A : Type 0} → (Service D → Type 0) → Call D A → Type 0
  Keeps P m = Triple P m (λ _. P) (λ _. P)

  -- The caches are as they were, and so are the strategies.
  pub record IsIdle (w v : Service D) : Type 0 where
    pub objects : v.strategy_object_cache ≡ w.strategy_object_cache
    pub devices : v.device_strategy_cache ≡ w.device_strategy_cache
    pub strategies : (g : String) → db.find_strategy g v.rows ≡ db.find_strategy g w.rows

  authorized-Keeps :
      {A : Type 0} (w : Service D) (check : Database → Auth A)
      → Keeps (IsIdle w) (authorized db check)
  unfolding authorized
  authorized-Keeps {A} w check = record { holds = λ v h. go v h (check (db.rbac v.rows) v.log) }
    where
      go :
          (v : Service D)
          → IsIdle w v
          → (r : Result AuthError A × List DeniedEvent)
          → After (λ _. IsIdle w) (λ _. IsIdle w) (lifted db v r)
      go v h (ok a, log) = record {
        objects = h.objects;
        devices = h.devices;
        strategies = h.strategies;
      }
      go v h (err e, log) = record {
        objects = h.objects;
        devices = h.devices;
        strategies = h.strategies;
      }

  find_stored-Keeps : (P : Service D → Type 0) (guid : String) → Keeps P (find_stored db guid)
  find_stored-Keeps P guid = Triple-get _ (λ w.
      Triple-weaken (go (db.find_strategy guid w.rows)) (λ v h. h.0) (λ a v h. h) (λ e v h. h))
    where
      go : (o : Option Strategy) → Keeps P (found db o)
      go none = Triple-throw _ (λ v h. h)
      go (some s) = Triple-pure s (λ v h. h)

  update_rows-Keeps :
      (w : Service D) (t : TargetType) (c : Criteria) (v : Option String)
      (recheck : Call D (Unit {0}))
      → Keeps (IsIdle w) recheck
      → Keeps (IsIdle w) (update_rows db t c v recheck)
  unfolding update_rows
  update_rows-Keeps w t c v recheck keeps = Triple-get _ (λ u.
      Triple-then
        (Triple-modify (with_rows (db.update t c v u.rows).1) (λ s h. record {
          objects = h.0.objects;
          devices = h.0.devices;
          strategies = λ g.
              laws.find_strategy-update g t c v u.rows
              ∙ ap (λ k. db.find_strategy g k.rows) (sym h.1)
              ∙ h.0.strategies g;
        }))
        (Triple-when _ (λ e. Triple-then keeps (Triple-throw _ (λ s h. h))) (λ e s h. h)))

  assign_targets-Keeps :
      (w : Service D) (guid : String) (t : TargetType) (targets : List String) (actor : String)
      → Keeps (IsIdle w) (assign_targets db guid t targets actor)
  unfolding assign_targets assign_found assert_targets
  assign_targets-Keeps w guid t targets actor = Triple-get _ (λ u.
      Triple-weaken
        (Triple-bind (authorized-Keeps w _) (λ scope.
          Triple-bind (find_stored-Keeps (IsIdle w) guid) (λ _.
            Triple-then
              (Triple-when _
                (λ e. update_rows-Keeps w t _ _ _ (
                  Triple-when _
                    (λ f. Triple-bind (authorized-Keeps w _) (λ _. Triple-pure tt (λ s h. h)))
                    (λ f s h. h)))
                (λ e s h. h))
              (Triple-pure _ (λ s h. h)))))
        (λ v h. h.0) (λ a v h. h) (λ e v h. h))

  unassign_targets-Keeps :
      (w : Service D) (guid : String) (t : TargetType) (targets : List String) (actor : String)
      → Keeps (IsIdle w) (unassign_targets db guid t targets actor)
  unfolding unassign_targets assert_targets
  unassign_targets-Keeps w guid t targets actor = Triple-get _ (λ u.
      Triple-weaken
        (Triple-bind (authorized-Keeps w _) (λ scope.
          Triple-bind (find_stored-Keeps (IsIdle w) guid) (λ _.
            Triple-then
              (Triple-when _ (λ e. update_rows-Keeps w t _ _ _ (Triple-pure tt (λ s h. h)))
                (λ e s h. h))
              (Triple-pure _ (λ s h. h)))))
        (λ v h. h.0) (λ a v h. h) (λ e v h. h))

  -- The caches are coherent again, if the rows they are about are.
  idle-IsCoherent :
      (w v : Service D) → IsIdle w v → v.rows ≡ w.rows → IsCoherent db w → IsCoherent db v
  idle-IsCoherent w v idle same coh = record {
    objects = λ g s h. idle.strategies g ∙ coh.objects g s (ap (λ m. m g) (sym idle.objects) ∙ h);
    devices = λ u c p h e.
        subst (λ d. db.find_peer u d ≡ some p → guid_of (resolve_strategy_for_peer db p d) ≡ c)
          (sym same) (coh.devices u c p (ap (λ m. m u) (sym idle.devices) ∙ h)) e;
  }

  -- A transaction that only updates rows, and then clears what is cached of the devices.
  cleared-IsCoherent :
      {A : Type 0} (w : Service D) (m : Call D A)
      → Keeps (IsIdle w) m
      → IsCoherent db w
      → IsCoherent db (and_invalidate db m w).1
  unfolding and_invalidate transaction ◌>>=◌ modify pure invalidate_device_strategy_cache
  cleared-IsCoherent {A} w m keeps coh =
      go (m w) (keeps.holds w (record { objects = refl; devices = refl; strategies = λ g. refl }))
    where
      go :
          (r : Result StrategyError A × Service D)
          → After (λ _. IsIdle w) (λ _. IsIdle w) r
          → IsCoherent db (continue (undone db w r) (λ a s. (ok a, uncached cleared s))).1
      go (ok a, v) idle = record {
        objects =
            λ g s h. idle.strategies g ∙ coh.objects g s (ap (λ m. m g) (sym idle.objects) ∙ h);
        devices = λ u c p h e. ground arith;
      }
      go (err e, v) idle =
          idle-IsCoherent w (with_rows (db.rolled_back w.rows v.rows) v)
            (record {
              objects = idle.objects;
              devices = idle.devices;
              strategies = λ g. ap (db.find_strategy g) (laws.rolled_back-first w.rows v.rows);
            })
            (laws.rolled_back-first w.rows v.rows) coh

  pub assign_strategy-IsCoherent :
      (w : Service D) (guid : String) (t : TargetType) (targets : List String) (actor : String)
      → IsCoherent db w
      → IsCoherent db (assign_strategy db guid t targets actor w).1
  unfolding assign_strategy
  assign_strategy-IsCoherent w guid t targets actor =
      cleared-IsCoherent w _ (assign_targets-Keeps w guid t (unique targets) actor)

  pub unassign_strategy-IsCoherent :
      (w : Service D) (guid : String) (t : TargetType) (targets : List String) (actor : String)
      → IsCoherent db w
      → IsCoherent db (unassign_strategy db guid t targets actor w).1
  unfolding unassign_strategy
  unassign_strategy-IsCoherent w guid t targets actor =
      cleared-IsCoherent w _ (unassign_targets-Keeps w guid t (unique targets) actor)
