-- ===== src/Strategy/Invariant.antt =====
-- The caches of modules/strategy/strategy.service.ts stay coherent under every call of the service.
use rustdesk_console.Common.{
  String, ◌≡◌, refl, ◌∙◌, ap, subst, Bool, true, false, Option, none, some, List, ◌==◌, string_eq,
  if◌then◌else◌, arith,
}
use rustdesk_console.Common.Effects.{
  Result, ok, err, pure, throw, get, modify, branch, ◌>>=◌, After, Triple, Triple-bind, Triple-then,
  Triple-get, Triple-pure, Triple-throw, Triple-when, Triple-modify,
}
use rustdesk_console.Strategy.Store.{is_found, Strategy, Peer, Store, IsStore}
use rustdesk_console.Strategy.Resolution.{
  Service, find_strategy_for_peer, invalidate_device_strategy_cache, dropped, cleared, uncached,
}
use rustdesk_console.Rbac.Protection.{TargetType}
use rustdesk_console.Rbac.Authorization.{truthy}
use rustdesk_console.Strategy.Assignment.{assign_strategy, unassign_strategy}
use rustdesk_console.Strategy.Assignment.Idle.{
  assign_strategy-IsCoherent, unassign_strategy-IsCoherent,
}
use rustdesk_console.Strategy.Coherence.{
  IsCoherent, IsUnused, find_strategy_for_peer-resolve_strategy_for_peer,
}
use rustdesk_console.Strategy.Changes.{
  StrategyError, syntax, Options, CreateStrategyDto, UpdateStrategyDto, with_guid, changed,
  with_rows, save, with_object, forgotten, create_strategy, check_name, update_strategy,
  delete_strategy, is_other, options_of, find_stored, found, parsed, Call,
}
use rustdesk_console.Strategy.Changes.Saving.{saved-IsCoherent, new-IsCoherent}
use rustdesk_console.Strategy.Changes.Removing.{removed-IsCoherent}

module _ {D : Type 0} (db : Store D) (laws : IsStore db) where
  -- The call keeps the property, whether it returns or throws.
  abbrev Keeps : {A : Type 0} → (Service D → Type 0) → Call D A → Type 0
  Keeps P m = Triple P m (λ _. P) (λ _. P)

  abbrev Stored : String → Strategy → Service D → Type 0
  Stored guid s w = IsCoherent db w × (db.find_strategy guid w.rows ≡ some s)

  find_stored_rule :
      (guid : String)
      → Triple (IsCoherent db) (find_stored db guid) (Stored guid) (λ _. IsCoherent db)
  unfolding ◌>>=◌ get throw pure
  find_stored_rule guid = record { holds = λ w coh. go w coh (db.find_strategy guid w.rows) refl }
    where
      go :
          (w : Service D)
          → IsCoherent db w
          → (o : Option Strategy) → db.find_strategy guid w.rows ≡ o
          → After (Stored guid) (λ _. IsCoherent db) (found db o w)
      go w coh none e = coh
      go w coh (some s) e = (coh, e)

  check_name_rule :
      (name : Option String) (guid : String) (s : Strategy)
      → Triple (Stored guid s) (check_name db name guid) (λ _. Stored guid s) (λ _. IsCoherent db)
  unfolding check_name
  check_name_rule none guid s = Triple-pure tt (λ w h. h)
  check_name_rule (some name) guid s = Triple-get _ (λ w.
      Triple-when (is_other (db.find_strategy_named name w.rows) guid)
        (λ e. Triple-throw _ (λ v h. h.0.0)) (λ e v h. h.0))

  branch_either :
      {A : Type 0} (P : Service D → Type 0) (b : Bool) (m k : Call D A) (w : Service D)
      → P (m w).1
      → P (k w).1
      → P (branch b m k w).1
  unfolding branch
  branch_either P true m k w x y = x
  branch_either P false m k w x y = y

  pub delete_strategy-Keeps : (guid : String) → Keeps (IsCoherent db) (delete_strategy db guid)
  unfolding delete_strategy ◌>>=◌ modify
  delete_strategy-Keeps guid = Triple-bind (find_stored_rule guid) (λ s. record {
    holds = λ w h.
        subst (λ k. IsCoherent db (forgotten k (with_rows (db.remove_strategy s w.rows) w)))
          (laws.find_strategy-guid guid w.rows s h.1) (removed-IsCoherent db laws w s h.0);
  })

  -- A row that was found is saved, and put in the cache.
  save_rule :
      (guid : String) (s t : Strategy)
      → t.guid ≡ s.guid
      → Triple
          (Stored guid s)
          (save db t)
          (λ saved v. IsCoherent db (with_object guid saved v))
          (λ _. IsCoherent db)
  unfolding save ◌>>=◌ get modify pure
  save_rule guid s t same = record {
    holds = λ w h.
        let key : t.guid ≡ guid = same ∙ laws.find_strategy-guid guid w.rows s h.1 in
        let saved = db.save_strategy t w.rows in
        subst (λ k. IsCoherent db (with_object k saved.0 (with_rows saved.1 w))) key
          (saved-IsCoherent db laws w t s h.0 (ap (λ k. db.find_strategy k w.rows) key ∙ h.1));
  }

  module _ (stringify : Options → String) (parse : String → Result String Options) where
    create_strategy-IsCoherent :
        (guid : String) (dto : CreateStrategyDto) (w : Service D)
        → IsCoherent db w
        → IsUnused db guid w.rows
        → IsCoherent db (create_strategy db stringify parse guid dto w).1
    unfolding create_strategy ◌>>=◌ get save modify pure throw
    create_strategy-IsCoherent guid dto w coh fresh =
        branch_either (IsCoherent db) (is_found (db.find_strategy_named dto.name w.rows)) _ _ w coh
          (new-IsCoherent db laws w (with_guid db stringify parse guid dto) coh fresh)

    options_of-Keeps :
        (P : Service D → Type 0) (s : Strategy) (o : Option Options)
        → Keeps P (options_of db stringify parse o s)
    options_of-Keeps P s (some o) = Triple-pure o (λ w h. h)
    options_of-Keeps P s none =
        go (parse (if s.config_options == "" then "{}" else s.config_options))
      where
        go : (r : Result String Options) → Keeps P (parsed db stringify parse r)
        go (ok o) = Triple-pure o (λ w h. h)
        go (err e) = Triple-throw (syntax e) (λ w h. h)

    pub update_strategy-Keeps :
        (guid : String) (dto : UpdateStrategyDto)
        → Keeps (IsCoherent db) (update_strategy db stringify parse guid dto)
    unfolding update_strategy
    update_strategy-Keeps guid dto = Triple-bind (find_stored_rule guid) (λ s.
        Triple-then (check_name_rule dto.name guid s) (
          Triple-bind (save_rule guid s (changed db stringify parse dto s) refl) (λ saved.
            Triple-then (Triple-modify (with_object guid saved) (λ w h. h)) (
              Triple-bind (options_of-Keeps (IsCoherent db) saved dto.config_options)
                (λ o. Triple-pure (saved, o) (λ w h. h))))))

module _ {D : Type 0} (db : Store D) (stringify : Options → String)
    (parse : String → Result String Options) where
  -- The calls of the service, each from the state that the one before it has left, whether it
  -- returned or threw. A new strategy gets an identifier that nothing has; a lookup is for a device
  -- with its stored row.
  pub data Step : Service D → Service D → Type 0 where
    created :
        (guid : String) (dto : CreateStrategyDto) (w : Service D)
        → IsUnused db guid w.rows
        → Step w (create_strategy db stringify parse guid dto w).1
    updated :
        (guid : String) (dto : UpdateStrategyDto) (w : Service D)
        → Step w (update_strategy db stringify parse guid dto w).1
    deleted : (guid : String) (w : Service D) → Step w (delete_strategy db guid w).1
    assigned :
        (guid : String) (t : TargetType) (targets : List String) (actor : String) (w : Service D)
        → Step w (assign_strategy db guid t targets actor w).1
    unassigned :
        (guid : String) (t : TargetType) (targets : List String) (actor : String) (w : Service D)
        → Step w (unassign_strategy db guid t targets actor w).1
    looked_up :
        (p : Peer) (w : Service D)
        → db.find_peer p.uuid w.rows ≡ some p
        → Step w (find_strategy_for_peer db p w).1
    invalidated :
        (u : Option String) (w : Service D) → Step w (invalidate_device_strategy_cache u w)

  pub data Steps : Service D → Service D → Type 0 where
    done : (w : Service D) → Steps w w
    next : {u v w : Service D} → Steps u v → Step v w → Steps u w

module _ {D : Type 0} (db : Store D) (laws : IsStore db) where
  dropped-IsCoherent :
      (b : Bool) (u : String) (w : Service D)
      → IsCoherent db w
      → IsCoherent db
          (if b then uncached (dropped u w.device_strategy_cache) w else uncached cleared w)
  dropped-IsCoherent true u w coh = record {
    objects = coh.objects;
    devices = λ v c p h e. coh.devices v c p (ground arith) e;
  }
  dropped-IsCoherent false u w coh = record {
    objects = coh.objects;
    devices = λ v c p h e. ground arith;
  }

  invalidated-IsCoherent :
      (o : Option String) (w : Service D)
      → IsCoherent db w
      → IsCoherent db (invalidate_device_strategy_cache o w)
  unfolding invalidate_device_strategy_cache
  invalidated-IsCoherent none w coh = record {
    objects = coh.objects;
    devices = λ u c p h e. ground arith;
  }
  invalidated-IsCoherent (some u) w coh = dropped-IsCoherent (truthy (some u)) u w coh

  After-IsCoherent :
      {A : Type 0} (r : Result StrategyError A × Service D)
      → After (λ _. IsCoherent db) (λ _. IsCoherent db) r
      → IsCoherent db r.1
  After-IsCoherent (ok a, s) h = h
  After-IsCoherent (err e, s) h = h

  module _ (stringify : Options → String) (parse : String → Result String Options) where
    Step-IsCoherent :
        {v w : Service D} → Step db stringify parse v w → IsCoherent db v → IsCoherent db w
    Step-IsCoherent (created guid dto v fresh) coh =
        create_strategy-IsCoherent db laws stringify parse guid dto v coh fresh
    Step-IsCoherent (updated guid dto v) coh =
        After-IsCoherent _ ((update_strategy-Keeps db laws stringify parse guid dto).holds v coh)
    Step-IsCoherent (deleted guid v) coh =
        After-IsCoherent _ ((delete_strategy-Keeps db laws guid).holds v coh)
    Step-IsCoherent (assigned guid t targets actor v) coh =
        assign_strategy-IsCoherent db laws v guid t targets actor coh
    Step-IsCoherent (unassigned guid t targets actor v) coh =
        unassign_strategy-IsCoherent db laws v guid t targets actor coh
    Step-IsCoherent (looked_up p v row) coh =
        (find_strategy_for_peer-resolve_strategy_for_peer db laws p v coh row).2
    Step-IsCoherent (invalidated o v) coh = invalidated-IsCoherent o v coh

    -- Whatever calls of the strategy service follow each other, creations, changes, deletions,
    -- assignments, lookups and invalidations, returning or throwing, caches that were coherent stay
    -- coherent: a cached strategy is the stored one, and a device's entry is what its row resolves
    -- to. A created strategy has an identifier that nothing has or names, and a lookup is made with
    -- the device's stored row.
    pub Steps-IsCoherent :
        (v w : Service D) → Steps db stringify parse v w → IsCoherent db v → IsCoherent db w
    Steps-IsCoherent v w (done v') coh = coh
    Steps-IsCoherent v w (next before last) coh =
        Step-IsCoherent last (Steps-IsCoherent _ _ before coh)
