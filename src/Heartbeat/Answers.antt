-- ===== src/Heartbeat/Answers.antt =====
-- What a heartbeat is answered, and what becomes of the pending disconnections.
use rustdesk_console.Common.{
  ℕ, String, ◌≡◌, refl, sym, ap, ◌∙◌, subst, Bool, true, false, not, ◌&&◌, ◌||◌, Option, none, some,
  List, ◌==◌, string_eq, nat_eq, ==_refl, if◌then◌else◌, includes, arith,
}
use rustdesk_console.Common.Effects.{Result}
use rustdesk_console.Strategy.Store.{Peer, Store, IsStore, is_found}
use rustdesk_console.Strategy.Resolution.{
  Service, find_strategy_for_peer, resolve_strategy_for_peer,
}
use rustdesk_console.Strategy.Coherence.{
  IsCoherent, find_strategy_for_peer-resolve_strategy_for_peer,
}
use rustdesk_console.Strategy.Changes.{Options, with_rows}
use rustdesk_console.Strategy.Binding.{Devices}
use rustdesk_console.Heartbeat.Cache.{buffer_peer_update}
use rustdesk_console.Heartbeat.Disconnects.{get_pending_disconnects, includes-remove_disconnected}
use rustdesk_console.Heartbeat.Service.{
  HeartbeatDto, Reply, Registry, Hub, names_id, reported, handle_known, handle_new, handle_found,
  device_of, update_of, handle_heartbeat, reports, strategy_reply,
}

module _ {D : Type 0} (db : Store D) (laws : IsStore db) (devices : Devices D)
    (registry : Registry D) (parse : String → Result String Options) where
  abbrev is_pending : String → ℕ → Hub D → Bool
  is_pending u c w = includes (get_pending_disconnects u w.pending) c

  -- The device is asked to close the connections that were pending and that it still reports, and
  -- these stay pending; those of other devices are untouched. A registered device is told the
  -- strategy that its row resolves to, if that is newer.
  pub record IsAnswered (uuid : String) (beat : HeartbeatDto) (w : Hub D) (reply : Reply)
      (v : Hub D) : Type 0 where
    pub asked :
        (c : ℕ) → includes reply.disconnect c ≡ (is_pending uuid c w && reports beat.conns c)
    pub pending :
        (u : String) (c : ℕ)
        → is_pending u c v ≡ (is_pending u c w && (not (uuid == u) || reports beat.conns c))
    pub told :
        (p : Peer)
        → db.find_peer uuid w.strategies.rows ≡ some p
        → (reply.strategy
            ≡ strategy_reply db devices registry parse
                (resolve_strategy_for_peer db p w.strategies.rows)
                beat.modified_at)
          × IsCoherent db v.strategies

  reported-pending :
      (uuid u : String) (conns : Option (List ℕ)) (c : ℕ) (w : Hub D)
      → is_pending u c (reported db devices registry parse uuid conns w)
        ≡ (is_pending u c w && (not (uuid == u) || reports conns c))
  reported-pending uuid u none c w = ground arith
  reported-pending uuid u (some conns) c w = includes-remove_disconnected uuid u conns w.pending c

  reported-strategies :
      (uuid : String) (conns : Option (List ℕ)) (w : Hub D)
      → (reported db devices registry parse uuid conns w).strategies ≡ w.strategies
  reported-strategies uuid none w = refl
  reported-strategies uuid (some conns) w = refl

  -- What a call leaves: an answer of the device, or nothing at all.
  abbrev pub Outcome : String → HeartbeatDto → Hub D → Option Reply × Hub D → Type 0
  Outcome uuid beat w (none, v) = v ≡ w
  Outcome uuid beat w (some reply, v) = IsAnswered uuid beat w reply v

  either :
      (P : Option Reply × Hub D → Type 0) (b : Bool) (x y : Option Reply × Hub D)
      → P x
      → P y
      → P (if b then x else y)
  either P true x y f g = f
  either P false x y f g = g

  -- The lookup for `p` in the strategy service `s` tells `q`'s resolution.
  abbrev IsTold : Peer → Peer → Service D → HeartbeatDto → Hub D → Type 0
  IsTold p q s beat w =
      (strategy_reply db devices registry parse (find_strategy_for_peer db p s).0 beat.modified_at
        ≡ strategy_reply db devices registry parse
            (resolve_strategy_for_peer db q w.strategies.rows) beat.modified_at)
      × IsCoherent db (find_strategy_for_peer db p s).1

  found-IsTold :
      (p q : Peer) (beat : HeartbeatDto) (uuid : String) (w : Hub D)
      → IsCoherent db w.strategies
      → db.find_peer uuid w.strategies.rows ≡ some p
      → db.find_peer uuid w.strategies.rows ≡ some q
      → IsTold p q w.strategies beat w
  found-IsTold p q beat uuid w coh row at =
      let key = laws.find_peer-uuid uuid w.strategies.rows p row in
      let stored : db.find_peer p.uuid w.strategies.rows ≡ some p =
        ap (λ k. db.find_peer k w.strategies.rows) key ∙ row in
      let same : p ≡ q = cc in
      let (resolved, _, after) =
        find_strategy_for_peer-resolve_strategy_for_peer db laws p w.strategies coh stored in
      (
        ap (λ r. strategy_reply db devices registry parse r beat.modified_at) resolved
            ∙ ap
                (λ x.
                  strategy_reply db devices registry parse
                    (resolve_strategy_for_peer db x w.strategies.rows) beat.modified_at)
                same,
        after,
      )

  known-Outcome :
      (now : ℕ) (beat : HeartbeatDto) (uuid : String) (p : Peer) (w : Hub D)
      → IsCoherent db w.strategies
      → db.find_peer uuid w.strategies.rows ≡ some p
      → Outcome uuid beat w (handle_known db devices registry parse now beat uuid p w)
  unfolding handle_known
  known-Outcome now beat uuid p w coh row =
      let buffered : Hub D = record {
        cache = buffer_peer_update uuid (update_of db devices registry parse now beat) w.cache;
        pending = w.pending;
        strategies = w.strategies;
      } in
      record {
        asked = λ c. ground (arith, reported-pending uuid uuid beat.conns c buffered, ==_refl uuid);
        pending = λ u c. reported-pending uuid u beat.conns c buffered;
        told = λ q at.
            subst (λ s. IsTold p q s beat w) (sym (reported-strategies uuid beat.conns buffered))
              (found-IsTold p q beat uuid w coh row at);
      }

  new-Outcome :
      (now : ℕ) (beat : HeartbeatDto) (uuid : String) (w : Hub D)
      → db.find_peer uuid w.strategies.rows ≡ none
      → Outcome uuid beat w (handle_new db devices registry parse now beat uuid w)
  unfolding handle_new
  new-Outcome now beat uuid w missing =
      let registered : Hub D = record {
        cache = w.cache;
        pending = w.pending;
        strategies =
            with_rows
              (registry.save_peer uuid (update_of db devices registry parse now beat)
                w.strategies.rows)
              w.strategies;
      } in
      either (Outcome uuid beat w) (is_found (registry.find_tombstone uuid w.strategies.rows)) _ _
        refl
        (record {
          asked =
              λ c. ground (arith, reported-pending uuid uuid beat.conns c registered, ==_refl uuid);
          pending = λ u c. reported-pending uuid u beat.conns c registered;
          told = λ p row. ground arith;
        })

  found-Outcome :
      (o : Option Peer) (now : ℕ) (beat : HeartbeatDto) (uuid : String) (w : Hub D)
      → IsCoherent db w.strategies
      → db.find_peer uuid w.strategies.rows ≡ o
      → Outcome uuid beat w (handle_found db devices registry parse o now beat uuid w)
  found-Outcome none now beat uuid w coh e = new-Outcome now beat uuid w e
  found-Outcome (some p) now beat uuid w coh e = known-Outcome now beat uuid p w coh e

  -- With coherent strategy caches, a heartbeat is either ignored, and then changes nothing, or
  -- answered for the device that it is resolved to: the device is asked to close exactly the pending
  -- connections that it does not report as closed, only these stay pending, those of other devices
  -- stay as they are, and a registered device is told the strategy that its row resolves to, if that
  -- is newer than what it has.
  pub handle_heartbeat-Outcome :
      (clone_isolation : Bool) (now : ℕ) (beat : HeartbeatDto) (w : Hub D)
      → IsCoherent db w.strategies
      → Outcome
          (device_of db devices registry parse clone_isolation beat w)
          beat
          w
          (handle_heartbeat db devices registry parse clone_isolation now beat w)
  unfolding handle_heartbeat
  handle_heartbeat-Outcome clone_isolation now beat w coh =
      let uuid = device_of db devices registry parse clone_isolation beat w in
      either (Outcome uuid beat w)
        (clone_isolation && names_id (registry.find_tombstone beat.uuid w.strategies.rows) beat.id)
        _ _ refl (found-Outcome (db.find_peer uuid w.strategies.rows) now beat uuid w coh refl)
