-- ===== src/Strategy/Changes/Removing.antt =====
-- What devices resolve to after a strategy is deleted, and what the caches say then.
use rustdesk_console.Common.{
  String, ◌≡◌, refl, sym, ◌∙◌, false, Option, none, some, string_eq, ==_iff, if◌then◌else◌,
  Option-cases, inl, inr, arith,
}
use rustdesk_console.Strategy.Store.{
  Strategy, Peer, Holder, Store, IsStore, over, is_some_guid, detached, detach, detach_peer,
}
use rustdesk_console.Strategy.Resolution.{
  Service, or_else, asked, strategy_of, held_by, resolve_strategy_for_peer,
}
use rustdesk_console.Strategy.Coherence.{guid_of, IsCoherent}
use rustdesk_console.Strategy.Changes.{names, with_rows, forgotten}
use rustdesk_console.Strategy.Changes.Saving.{by_user, by_group, parts}

-- The first of three after one identifier is taken out, if it was not the one taken out.
or_else-detached :
    (g : String) (a b c x : Option String)
    → is_some_guid x g ≡ false
    → or_else a (or_else b c) ≡ x
    → or_else (detached g a) (or_else (detached g b) (detached g c)) ≡ x
or_else-detached g none none none x h e = e
or_else-detached g none none (some c) x h e = ground arith
or_else-detached g none (some b) c x h e = ground arith
or_else-detached g (some a) b c x h e = ground arith

entry_kept :
    (g : String) (o : Option (Option String)) (c : Option String)
    → (if names o g then none else o) ≡ some c
    → (o ≡ some c) × (is_some_guid c g ≡ false)
entry_kept g none c h = ground arith
entry_kept g (some none) none h = (refl, refl)
entry_kept g (some none) (some k) h = ground arith
entry_kept g (some (some k)) none h = ground arith
entry_kept g (some (some k)) (some l) h = (ground arith, ground arith)

module _ {D : Type 0} (db : Store D) (laws : IsStore db) where
  -- The rows after a strategy is removed.
  module _ (s : Strategy) (d : D) where
    strategy_of-remove :
        (o : Option String)
        → guid_of (strategy_of db (detached s.guid o) (db.remove_strategy s d))
          ≡ detached s.guid (guid_of (strategy_of db o d))
    strategy_of-remove none = refl
    strategy_of-remove (some g) = elim (Option-cases (db.find_strategy g d)) [
      | inl unknown ↦
          ground (arith, laws.find_strategy-remove g s d, ==_iff s.guid g, ==_iff g s.guid)
      | inr (t, e) ↦
          let key = laws.find_strategy-guid g d t e in
          ground (
            arith,
            laws.find_strategy-remove g s d,
            ==_iff s.guid g,
            ==_iff g s.guid,
            ==_iff t.guid s.guid,
          )
    ]

    held_by-remove :
        (h : Option Holder)
        → guid_of (held_by db (over (detach s.guid) h) (db.remove_strategy s d))
          ≡ detached s.guid (guid_of (held_by db h d))
    held_by-remove none = refl
    held_by-remove (some h) = strategy_of-remove h.strategy_guid

    asked-remove :
        (o : Option String) (f g : String → Option Holder)
        → ((u : String) → f u ≡ over (detach s.guid) (g u))
        → asked o f ≡ over (detach s.guid) (asked o g)
    asked-remove none f g h = refl
    asked-remove (some u) f g h = rw (h u) (ground arith)

  over-some :
      {A B : Type 0} (f : A → B) (o : Option A) (b : B)
      → over f o ≡ some b
      → (a : A) × (o ≡ some a) × (b ≡ f a)
  over-some f none b h = ground arith
  over-some f (some a) b h = (a, refl, ground arith)

  resolve-remove :
      (s : Strategy) (d : D) (p : Peer) (c : Option String)
      → is_some_guid c s.guid ≡ false
      → guid_of (resolve_strategy_for_peer db p d) ≡ c
      → guid_of (resolve_strategy_for_peer db (detach_peer s.guid p) (db.remove_strategy s d)) ≡ c
  resolve-remove s d p c other e =
      let d' = db.remove_strategy s d in
      let users =
        asked-remove s d p.user_guid (λ g. db.find_user g d') (λ g. db.find_user g d)
          (λ u. laws.find_user-remove u s d) in
      let groups =
        asked-remove s d p.device_group_guid (λ g. db.find_group g d') (λ g. db.find_group g d)
          (λ u. laws.find_group-remove u s d) in
      rw
        (
          parts db laws (detach_peer s.guid p) d',
          users,
          groups,
          strategy_of-remove s d p.strategy_guid,
          held_by-remove s d (asked p.user_guid (λ g. db.find_user g d)),
          held_by-remove s d (asked p.device_group_guid (λ g. db.find_group g d)),
        )
        (or_else-detached s.guid (guid_of (strategy_of db p.strategy_guid d))
          (guid_of (by_user db laws p d)) (guid_of (by_group db laws p d)) c other
          (sym (parts db laws p d) ∙ e))

  pub removed-IsCoherent :
      (w : Service D) (s : Strategy)
      → IsCoherent db w
      → IsCoherent db (forgotten s.guid (with_rows (db.remove_strategy s w.rows) w))
  removed-IsCoherent w s coh = record {
    objects = λ g t h. ground (arith, laws.find_strategy-remove g s w.rows, coh.objects g t);
    devices = λ u c p h e.
        let (q, row, same) =
          over-some (detach_peer s.guid) (db.find_peer u w.rows) p
            (sym (laws.find_peer-remove u s w.rows) ∙ e) in
        let (kept, other) = entry_kept s.guid (w.device_strategy_cache u) c h in
        rw same (resolve-remove s w.rows q c other (coh.devices u c q kept row));
  }
