-- ===== src/Strategy/Changes/Saving.antt =====
-- What devices resolve to after a strategy is created or changed, and what the caches say then.
use rustdesk_console.Common.{
  String, ◌≡◌, refl, sym, ◌∙◌, false, Option, none, some, ◌==◌, string_eq, ==_iff, Bool-cases, inl,
  inr, arith,
}
use rustdesk_console.Strategy.Store.{Strategy, Peer, Holder, Store, IsStore, is_some_guid}
use rustdesk_console.Strategy.Resolution.{
  Service, or_else, asked, strategy_of, held_by, resolve_strategy_for_peer,
}
use rustdesk_console.Strategy.Coherence.{guid_of, IsCoherent, IsUnused}
use rustdesk_console.Strategy.Changes.{with_rows, with_object}

guid_of-or_else :
    (a b c : Option Strategy)
    → guid_of (or_else a (or_else b c)) ≡ or_else (guid_of a) (or_else (guid_of b) (guid_of c))
guid_of-or_else none none c = refl
guid_of-or_else none (some t) c = refl
guid_of-or_else (some s) b c = refl

module _ {D : Type 0} (db : Store D) (laws : IsStore db) where
  abbrev pub by_user : Peer → D → Option Strategy
  by_user p d = held_by db (asked p.user_guid (λ g. db.find_user g d)) d

  abbrev pub by_group : Peer → D → Option Strategy
  by_group p d = held_by db (asked p.device_group_guid (λ g. db.find_group g d)) d

  -- The identifier that a device resolves to, by the three places it is looked for.
  pub parts :
      (p : Peer) (d : D)
      → guid_of (resolve_strategy_for_peer db p d)
        ≡ or_else
            (guid_of (strategy_of db p.strategy_guid d))
            (or_else (guid_of (by_user p d)) (guid_of (by_group p d)))
  unfolding resolve_strategy_for_peer
  parts p d = guid_of-or_else (strategy_of db p.strategy_guid d) (by_user p d) (by_group p d)

  -- A row that is saved under the identifier of a stored one.
  module _ (s old : Strategy) (d : D) (stored : db.find_strategy s.guid d ≡ some old) where
    strategy_of-save :
        (o : Option String)
        → guid_of (strategy_of db o (db.save_strategy s d).1) ≡ guid_of (strategy_of db o d)
    strategy_of-save none = refl
    strategy_of-save (some g) = elim (Bool-cases (s.guid == g)) [
      | inl same ↦
          let key : s.guid ≡ g = (==_iff s.guid g).0 same in
          let at = laws.find_strategy-guid s.guid d old stored in
          let found : db.find_strategy g d ≡ some old = cc in
          ground (arith, laws.find_strategy-save g s d, laws.save-guid s d, found, at)
      | inr other ↦ ground (arith, laws.find_strategy-save g s d)
    ]

    held_by-save :
        (h : Option Holder)
        → guid_of (held_by db h (db.save_strategy s d).1) ≡ guid_of (held_by db h d)
    held_by-save none = refl
    held_by-save (some h) = strategy_of-save h.strategy_guid

  asked_ext :
      {A : Type 0} (o : Option String) (f g : String → Option A)
      → ((u : String) → f u ≡ g u)
      → asked o f ≡ asked o g
  asked_ext none f g h = refl
  asked_ext (some u) f g h = rw (h u)

  resolve-save :
      (s old : Strategy) (d : D) (p : Peer)
      → db.find_strategy s.guid d ≡ some old
      → guid_of (resolve_strategy_for_peer db p (db.save_strategy s d).1)
        ≡ guid_of (resolve_strategy_for_peer db p d)
  resolve-save s old d p stored =
      let d' = (db.save_strategy s d).1 in
      let users =
        asked_ext p.user_guid (λ g. db.find_user g d') (λ g. db.find_user g d)
          (λ u. laws.find_user-save u s d) in
      let groups =
        asked_ext p.device_group_guid (λ g. db.find_group g d') (λ g. db.find_group g d)
          (λ u. laws.find_group-save u s d) in
      rw (
        parts p d,
        parts p d',
        users,
        groups,
        strategy_of-save s old d stored p.strategy_guid,
        held_by-save s old d stored (asked p.user_guid (λ g. db.find_user g d)),
        held_by-save s old d stored (asked p.device_group_guid (λ g. db.find_group g d)),
      )

  -- After a stored strategy is saved and put in the cache.
  pub saved-IsCoherent :
      (w : Service D) (s old : Strategy)
      → IsCoherent db w
      → db.find_strategy s.guid w.rows ≡ some old
      → IsCoherent db (
          with_object s.guid
            (db.save_strategy s w.rows).0
            (with_rows (db.save_strategy s w.rows).1 w))
  saved-IsCoherent w s old coh stored = record {
    objects = λ g t h. ground (arith, laws.find_strategy-save g s w.rows, coh.objects g t);
    devices = λ u c p h e.
        resolve-save s old w.rows p stored
        ∙ coh.devices u c p h (sym (laws.find_peer-save u s w.rows) ∙ e);
  }

  -- A row that is saved under an identifier that no row has or names.
  module _ (s : Strategy) (d : D) (free : db.find_strategy s.guid d ≡ none) where
    strategy_of-new :
        (o : Option String)
        → is_some_guid o s.guid ≡ false
        → guid_of (strategy_of db o (db.save_strategy s d).1) ≡ guid_of (strategy_of db o d)
    strategy_of-new none h = refl
    strategy_of-new (some g) h =
        ground (arith, laws.find_strategy-save g s d, ==_iff s.guid g, ==_iff g s.guid)

    held_by-new :
        (h : Option Holder)
        → ((k : Holder) → h ≡ some k → is_some_guid k.strategy_guid s.guid ≡ false)
        → guid_of (held_by db h (db.save_strategy s d).1) ≡ guid_of (held_by db h d)
    held_by-new none u = refl
    held_by-new (some h) u = strategy_of-new h.strategy_guid (u h refl)

  asked-some :
      {A : Type 0} (o : Option String) (f : String → Option A) (a : A)
      → asked o f ≡ some a
      → (u : String) × (f u ≡ some a)
  asked-some none f a h = ground arith
  asked-some (some u) f a h = (u, ground arith)

  resolve-new :
      (s : Strategy) (d : D) (u : String) (p : Peer)
      → IsUnused db s.guid d
      → db.find_peer u d ≡ some p
      → guid_of (resolve_strategy_for_peer db p (db.save_strategy s d).1)
        ≡ guid_of (resolve_strategy_for_peer db p d)
  resolve-new s d u p fresh row =
      let d' = (db.save_strategy s d).1 in
      let users =
        asked_ext p.user_guid (λ g. db.find_user g d') (λ g. db.find_user g d)
          (λ u. laws.find_user-save u s d) in
      let groups =
        asked_ext p.device_group_guid (λ g. db.find_group g d') (λ g. db.find_group g d)
          (λ u. laws.find_group-save u s d) in
      rw (
        parts p d,
        parts p d',
        users,
        groups,
        strategy_of-new s d fresh.no_strategy p.strategy_guid (fresh.no_peer u p row),
        held_by-new s d fresh.no_strategy (asked p.user_guid (λ g. db.find_user g d))
            (λ k e. let (v, f) = asked-some p.user_guid _ k e in fresh.no_user v k f),
        held_by-new s d fresh.no_strategy (asked p.device_group_guid (λ g. db.find_group g d))
            (λ k e. let (v, f) = asked-some p.device_group_guid _ k e in fresh.no_group v k f),
      )

  pub new-IsCoherent :
      (w : Service D) (s : Strategy)
      → IsCoherent db w
      → IsUnused db s.guid w.rows
      → IsCoherent db (with_rows (db.save_strategy s w.rows).1 w)
  new-IsCoherent w s coh fresh = record {
    objects = λ g t h. elim (Bool-cases (s.guid == g)) [
      | inl same ↦
          let key : s.guid ≡ g = (==_iff s.guid g).0 same in
          let stored = coh.objects g t h in
          let free = fresh.no_strategy in
          let odd : db.find_strategy s.guid w.rows ≡ some t = cc in ground arith
      | inr other ↦ ground (arith, laws.find_strategy-save g s w.rows, coh.objects g t)
    ];
    devices = λ u c p h e.
        let row : db.find_peer u w.rows ≡ some p = sym (laws.find_peer-save u s w.rows) ∙ e in
        resolve-new s w.rows u p fresh row ∙ coh.devices u c p h row;
  }
