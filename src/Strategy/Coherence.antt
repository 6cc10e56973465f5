-- ===== src/Strategy/Coherence.antt =====
-- What the caches of the strategies agree with, and the lookup through them.
use rustdesk_console.Common.{
  String, ◌≡◌, refl, sym, ◌∙◌, ap, false, Option, none, some, ◌==◌, string_eq, ==_iff, Bool-cases,
  inl, inr, arith,
}
use rustdesk_console.Rbac.Authorization.{truthy}
use rustdesk_console.Strategy.Store.{Strategy, Peer, Holder, Store, IsStore, over, is_some_guid}
use rustdesk_console.Strategy.Resolution.{
  cached, Service, or_else, asked, strategy_of, held_by, resolve_strategy_for_peer, remembered,
  from_object, from_cache, find_strategy_for_peer,
}

abbrev pub guid_of : Option Strategy → Option String
guid_of = over (λ s. s.guid)

module _ {D : Type 0} (db : Store D) where
  -- A cached strategy is the one stored, and a device's cached identifier is the one that its row
  -- resolves to.
  pub record IsCoherent (w : Service D) : Type 0 where
    pub objects :
        (g : String) (s : Strategy)
        → w.strategy_object_cache g ≡ some s
        → db.find_strategy g w.rows ≡ some s
    pub devices :
        (u : String) (c : Option String) (p : Peer)
        → w.device_strategy_cache u ≡ some c
        → db.find_peer u w.rows ≡ some p
        → guid_of (resolve_strategy_for_peer db p w.rows) ≡ c

  -- No strategy has the identifier, and no device, user or group names it.
  pub record IsUnused (g : String) (d : D) : Type 0 where
    pub no_strategy : db.find_strategy g d ≡ none
    pub no_peer :
        (u : String) (p : Peer) → db.find_peer u d ≡ some p → is_some_guid p.strategy_guid g ≡ false
    pub no_user :
        (u : String) (h : Holder)
        → db.find_user u d ≡ some h
        → is_some_guid h.strategy_guid g ≡ false
    pub no_group :
        (u : String) (h : Holder)
        → db.find_group u d ≡ some h
        → is_some_guid h.strategy_guid g ≡ false

module _ {D : Type 0} (db : Store D) (laws : IsStore db) where
  strategy_of-found :
      (o : Option String) (d : D) (s : Strategy)
      → strategy_of db o d ≡ some s
      → db.find_strategy s.guid d ≡ some s
  strategy_of-found none d s h = ground arith
  strategy_of-found (some g) d s h = elim (Bool-cases (truthy (some g))) [
    | inl t ↦
        let found : db.find_strategy g d ≡ some s = ground arith in
        ap (λ k. db.find_strategy k d) (laws.find_strategy-guid g d s found) ∙ found
    | inr f ↦ ground arith
  ]

  held_by-found :
      (h : Option Holder) (d : D) (s : Strategy)
      → held_by db h d ≡ some s
      → db.find_strategy s.guid d ≡ some s
  held_by-found none d s e = ground arith
  held_by-found (some h) d s e = strategy_of-found h.strategy_guid d s e

  or_else-found :
      (a b : Option Strategy) (d : D) (s : Strategy)
      → (a ≡ some s → db.find_strategy s.guid d ≡ some s)
      → (b ≡ some s → db.find_strategy s.guid d ≡ some s)
      → or_else a b ≡ some s
      → db.find_strategy s.guid d ≡ some s
  or_else-found none b d s f g h = g h
  or_else-found (some a) b d s f g h = f h

  -- What a device resolves to is stored, under its identifier.
  pub resolve_strategy_for_peer-found :
      (p : Peer) (d : D) (s : Strategy)
      → resolve_strategy_for_peer db p d ≡ some s
      → db.find_strategy s.guid d ≡ some s
  unfolding resolve_strategy_for_peer
  resolve_strategy_for_peer-found p d s =
      or_else-found _ _ d s (strategy_of-found p.strategy_guid d s) (
        or_else-found _ _ d s (held_by-found (asked p.user_guid (λ g. db.find_user g d)) d s)
          (held_by-found (asked p.device_group_guid (λ g. db.find_group g d)) d s))

  abbrev Answer : Peer → Service D → Option Strategy × Service D → Type 0
  Answer p w (r, w') =
      (r ≡ resolve_strategy_for_peer db p w.rows) × (w'.rows ≡ w.rows) × IsCoherent db w'

  remembered-devices :
      (p q : Peer) (w : Service D) (r : Option Strategy) (u : String) (c : Option String)
      → IsCoherent db w
      → db.find_peer p.uuid w.rows ≡ some p
      → r ≡ resolve_strategy_for_peer db p w.rows
      → cached p.uuid (guid_of r) w.device_strategy_cache u ≡ some c
      → db.find_peer u w.rows ≡ some q
      → guid_of (resolve_strategy_for_peer db q w.rows) ≡ c
  remembered-devices p q w r u c ok row e h f = elim (Bool-cases (p.uuid == u)) [
    | inl same ↦
        let key : p.uuid ≡ u = (==_iff p.uuid u).0 same in
        let now : guid_of r ≡ c = ground arith in cc
    | inr other ↦ ok.devices u c q (ground arith) f
  ]

  resolve_and_remember-Answer :
      (p : Peer) (w : Service D) (r : Option Strategy)
      → IsCoherent db w
      → db.find_peer p.uuid w.rows ≡ some p
      → r ≡ resolve_strategy_for_peer db p w.rows
      → Answer p w (r, remembered db p r w)
  resolve_and_remember-Answer p w none ok row e = (
    e,
    refl,
    record {
      objects = ok.objects;
      devices = λ u c q h f. remembered-devices p q w none u c ok row e h f;
    },
  )
  resolve_and_remember-Answer p w (some s) ok row e = (
    e,
    refl,
    record {
      objects = λ g t h. elim (Bool-cases (s.guid == g)) [
        | inl same ↦
            let key : s.guid ≡ g = (==_iff s.guid g).0 same in
            let now : s ≡ t = ground arith in
            let stored = resolve_strategy_for_peer-found p w.rows s (sym e) in cc
        | inr other ↦ ok.objects g t (ground arith)
      ];
      devices = λ u c q h f. remembered-devices p q w (some s) u c ok row e h f;
    },
  )

  guid_of-none : (r : Option Strategy) → guid_of r ≡ none → none ≡ r
  guid_of-none none h = refl
  guid_of-none (some s) h = ground arith

  -- A resolution with the identifier of a stored strategy is that strategy.
  resolved_is :
      (p : Peer) (d : D) (g : String) (s : Strategy) (r : Option Strategy)
      → r ≡ resolve_strategy_for_peer db p d
      → guid_of r ≡ some g
      → db.find_strategy g d ≡ some s
      → some s ≡ r
  resolved_is p d g s none e h f = ground arith
  resolved_is p d g s (some t) e h f =
      let same : t.guid ≡ g = ground arith in
      let stored = resolve_strategy_for_peer-found p d t (sym e) in cc

  from_object-Answer :
      (p : Peer) (w : Service D) (g : String) (o : Option Strategy)
      → IsCoherent db w
      → db.find_peer p.uuid w.rows ≡ some p
      → w.device_strategy_cache p.uuid ≡ some (some g)
      → w.strategy_object_cache g ≡ o
      → Answer p w (from_object db o p w)
  from_object-Answer p w g none ok row e f =
      resolve_and_remember-Answer p w (resolve_strategy_for_peer db p w.rows) ok row refl
  from_object-Answer p w g (some s) ok row e f = (
    resolved_is p w.rows g s _ refl (ok.devices p.uuid (some g) p e row) (ok.objects g s f),
    refl,
    ok,
  )

  from_cache-Answer :
      (p : Peer) (w : Service D) (c : Option (Option String))
      → IsCoherent db w
      → db.find_peer p.uuid w.rows ≡ some p
      → w.device_strategy_cache p.uuid ≡ c
      → Answer p w (from_cache db c p w)
  from_cache-Answer p w none ok row e =
      resolve_and_remember-Answer p w (resolve_strategy_for_peer db p w.rows) ok row refl
  from_cache-Answer p w (some none) ok row e =
      (guid_of-none _ (ok.devices p.uuid none p e row), refl, ok)
  from_cache-Answer p w (some (some g)) ok row e =
      from_object-Answer p w g (w.strategy_object_cache g) ok row e refl

  -- From coherent caches, the lookup for a device with its stored row returns what the row resolves
  -- to in the database, changes no row, and leaves the caches coherent.
  pub find_strategy_for_peer-resolve_strategy_for_peer :
      (p : Peer) (w : Service D)
      → IsCoherent db w
      → db.find_peer p.uuid w.rows ≡ some p
      → ((find_strategy_for_peer db p w).0 ≡ resolve_strategy_for_peer db p w.rows)
        × ((find_strategy_for_peer db p w).1.rows ≡ w.rows)
        × IsCoherent db (find_strategy_for_peer db p w).1
  unfolding find_strategy_for_peer
  find_strategy_for_peer-resolve_strategy_for_peer p w ok row =
      from_cache-Answer p w (w.device_strategy_cache p.uuid) ok row refl
