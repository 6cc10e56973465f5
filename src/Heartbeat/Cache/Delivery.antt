-- ===== src/Heartbeat/Cache/Delivery.antt =====
-- No report of a device's connections is lost: until it is stored, it stays in a buffer or in the flush
-- that is running, however the heartbeats and the flushes follow each other.
use rustdesk_console.Heartbeat.Cache.Snapshots.{
  distinct, says, distinct-put, distinct-restore, or_else-none, lookup-restore,
  has_peer-write_peers, holds-write_conns,
}
use rustdesk_console.Common.{
  ℕ, String, ◌≡◌, refl, sym, ap, ◌∙◌, subst, ◌⊎◌, inl, inr, Bool, true, false, ◌&&◌, ◌||◌, Option,
  none, some, List, [], ◌∷◌, ◌==◌, string_eq, nat_eq, if◌then◌else◌, includes, lookup, lookup-put,
  arith,
}
use rustdesk_console.Heartbeat.Cache.{
  Rows, Cache, BufferedPeerUpdate, buffer_peer_update, buffer_conns, or_else, get_buffered_conns,
  is_empty, start_flush, has_peer, sync_one, write_peers, write_conns, finished, commit_flush,
  restore, fail_flush,
}
use rustdesk_console.Heartbeat.Cache.Sync.{holds}

-- What happens to the service.
pub data Event : Type 0 where
  reports_peer : String → BufferedPeerUpdate → Event
  reports_conns : String → List ℕ → Event
  starts commits fails : Event

abbrev pub handle : Event → Cache → Cache
handle (reports_peer uuid update) c = buffer_peer_update uuid update c
handle (reports_conns uuid conns) c = buffer_conns uuid conns c
handle starts c = start_flush c
handle commits c = commit_flush c
handle fails c = fail_flush c

-- The last report of a device, after an event.
abbrev pub latest : String → Event → Option (List ℕ) → Option (List ℕ)
latest uuid (reports_conns device conns) before = if device == uuid then some conns else before
latest uuid (reports_peer device update) before = before
latest uuid starts before = before
latest uuid commits before = before
latest uuid fails before = before

abbrev pub handle_all : List Event → Cache → Cache
handle_all [] c = c
handle_all (e ∷ es) c = handle_all es (handle e c)

abbrev pub latest_of : String → List Event → Option (List ℕ) → Option (List ℕ)
latest_of uuid [] before = before
latest_of uuid (e ∷ es) before = latest_of uuid es (latest uuid e before)

-- The last report is buffered, or nothing is and it is what is stored.
abbrev pub IsDelivered : String → Option (List ℕ) → Option (List ℕ) → List (String × ℕ) → Type 0
IsDelivered uuid none buffered stored = buffered ≡ none
IsDelivered uuid (some conns) buffered stored =
    (buffered ≡ some conns)
    ⊎ ((buffered ≡ none) × ((id : ℕ) → holds uuid id stored ≡ includes conns id))

pub record IsValid (uuid : String) (report : Option (List ℕ)) (c : Cache) : Type 0 where
  pub keys : distinct c.conns_buffer ≡ true
  pub flushed_keys : distinct c.flushing_conns ≡ true
  pub idle : (c.flushing || is_empty c.flushing_conns) ≡ true
  pub registered : has_peer uuid c.rows ≡ true
  pub delivered : IsDelivered uuid report (get_buffered_conns uuid c) c.rows.connections

is_empty-nil : {A : Type 0} (xs : List A) → is_empty xs ≡ true → xs ≡ []
is_empty-nil [] h = refl
is_empty-nil (x ∷ xs) h = cc

module _ (uuid : String) where
  reports_peer-IsValid :
      (device : String) (update : BufferedPeerUpdate) (report : Option (List ℕ)) (c : Cache)
      → IsValid uuid report c
      → IsValid uuid report (buffer_peer_update device update c)
  unfolding buffer_peer_update get_buffered_conns
  reports_peer-IsValid device update report c v = record {
    keys = v.keys;
    flushed_keys = v.flushed_keys;
    idle = v.idle;
    registered = v.registered;
    delivered = v.delivered;
  }

  reported :
      (b : Bool) (conns : List ℕ) (report o f : Option (List ℕ)) (stored : List (String × ℕ))
      → IsDelivered uuid report (or_else o f) stored
      → IsDelivered uuid
          (if b then some conns else report)
          (or_else (if b then some conns else o) f)
          stored
  reported true conns report o f stored d = inl refl
  reported false conns report o f stored d = d

  reports_conns-IsValid :
      (device : String) (conns : List ℕ) (report : Option (List ℕ)) (c : Cache)
      → IsValid uuid report c
      → IsValid uuid (if device == uuid then some conns else report) (buffer_conns device conns c)
  unfolding buffer_conns get_buffered_conns
  reports_conns-IsValid device conns report c v = record {
    keys = distinct-put device conns c.conns_buffer v.keys;
    flushed_keys = v.flushed_keys;
    idle = v.idle;
    registered = v.registered;
    delivered =
        subst
          (λ o.
            IsDelivered uuid (if device == uuid then some conns else report)
              (or_else o (lookup uuid c.flushing_conns)) c.rows.connections)
          (sym (lookup-put device uuid conns c.conns_buffer))
          (reported (device == uuid) conns report (lookup uuid c.conns_buffer)
            (lookup uuid c.flushing_conns) c.rows.connections v.delivered);
  }

  starts-IsValid :
      (report : Option (List ℕ)) (c : Cache)
      → IsValid uuid report c
      → IsValid uuid report (start_flush c)
  unfolding start_flush get_buffered_conns
  starts-IsValid report c v =
      by_test (c.flushing || (is_empty c.peer_buffer && is_empty c.conns_buffer)) refl
    where
      by_test :
          (b : Bool)
          → (c.flushing || (is_empty c.peer_buffer && is_empty c.conns_buffer)) ≡ b
          → IsValid uuid report (
              if b then c else record c {
                flushing = true;
                peer_snapshot = c.peer_buffer;
                flushing_conns = c.conns_buffer;
                peer_buffer = [];
                conns_buffer = [];
              })
      by_test true e = v
      by_test false e = record {
        keys = refl;
        flushed_keys = v.keys;
        idle = refl;
        registered = v.registered;
        delivered =
            subst (λ o. IsDelivered uuid report o c.rows.connections)
              (ap (λ m. or_else (lookup uuid c.conns_buffer) (lookup uuid m))
                  (is_empty-nil c.flushing_conns (ground (arith, v.idle)))
                ∙ or_else-none (lookup uuid c.conns_buffer))
              v.delivered;
      }

  committed :
      (report o f : Option (List ℕ)) (before after : List (String × ℕ))
      → ((id : ℕ) → holds uuid id after ≡ says f id (holds uuid id before))
      → IsDelivered uuid report (or_else o f) before
      → IsDelivered uuid report (or_else o none) after
  committed none none f before after h d = refl
  committed none (some x) f before after h d = cc
  committed (some conns) (some x) f before after h (inl e) = inl e
  committed (some conns) (some x) f before after h (inr (e, st)) = cc
  committed (some conns) none (some y) before after h (inl e) =
      inr (refl, λ id. h id ∙ ap (λ l. includes l id) (cc))
  committed (some conns) none (some y) before after h (inr (e, st)) = cc
  committed (some conns) none none before after h (inl e) = cc
  committed (some conns) none none before after h (inr (e, st)) = inr (refl, λ id. h id ∙ st id)

  has_peer-write_conns :
      (m : List (String × List ℕ)) (rows : Rows)
      → has_peer uuid (write_conns m rows) ≡ has_peer uuid rows
  unfolding write_conns
  has_peer-write_conns [] rows = refl
  has_peer-write_conns ((k, conns) ∷ m) rows =
      has_peer-write_conns m (sync_one k conns rows) ∙ ground arith

  commits-IsValid :
      (report : Option (List ℕ)) (c : Cache)
      → IsValid uuid report c
      → IsValid uuid report (commit_flush c)
  unfolding commit_flush get_buffered_conns
  commits-IsValid report c v = by_test c.flushing
    where
      stores :
          (id : ℕ)
          → holds uuid id
              (write_conns c.flushing_conns (write_peers c.peer_snapshot c.rows)).connections
            ≡ says (lookup uuid c.flushing_conns) id (holds uuid id c.rows.connections)
      stores id =
          let (same, kept) = has_peer-write_peers uuid c.peer_snapshot c.rows in
          holds-write_conns uuid id c.flushing_conns (write_peers c.peer_snapshot c.rows)
            v.flushed_keys (same ∙ v.registered)
          ∙ ap (λ l. says (lookup uuid c.flushing_conns) id (holds uuid id l)) kept

      by_test :
          (b : Bool)
          → IsValid uuid report (
              if b
              then finished (record c {
                rows = write_conns c.flushing_conns (write_peers c.peer_snapshot c.rows);
              })
              else c)
      by_test true = record {
        keys = v.keys;
        flushed_keys = refl;
        idle = refl;
        registered =
            has_peer-write_conns c.flushing_conns (write_peers c.peer_snapshot c.rows)
            ∙ (has_peer-write_peers uuid c.peer_snapshot c.rows).0
            ∙ v.registered;
        delivered =
            committed report (lookup uuid c.conns_buffer) (lookup uuid c.flushing_conns)
              c.rows.connections _ stores v.delivered;
      }
      by_test false = v

  fails-IsValid :
      (report : Option (List ℕ)) (c : Cache)
      → IsValid uuid report c
      → IsValid uuid report (fail_flush c)
  unfolding fail_flush get_buffered_conns
  fails-IsValid report c v = by_test c.flushing
    where
      by_test :
          (b : Bool)
          → IsValid uuid report (
              if b
              then finished (record c {
                peer_buffer = restore c.peer_snapshot c.peer_buffer;
                conns_buffer = restore c.flushing_conns c.conns_buffer;
              })
              else c)
      by_test true = record {
        keys = distinct-restore c.flushing_conns c.conns_buffer v.keys;
        flushed_keys = refl;
        idle = refl;
        registered = v.registered;
        delivered =
            subst (λ o. IsDelivered uuid report o c.rows.connections)
              (sym (
                or_else-none (lookup uuid (restore c.flushing_conns c.conns_buffer))
                ∙ lookup-restore uuid c.flushing_conns c.conns_buffer))
              v.delivered;
      }
      by_test false = v

  handle-IsValid :
      (e : Event) (report : Option (List ℕ)) (c : Cache)
      → IsValid uuid report c
      → IsValid uuid (latest uuid e report) (handle e c)
  handle-IsValid (reports_peer device update) report c v =
      reports_peer-IsValid device update report c v
  handle-IsValid (reports_conns device conns) report c v =
      reports_conns-IsValid device conns report c v
  handle-IsValid starts report c v = starts-IsValid report c v
  handle-IsValid commits report c v = commits-IsValid report c v
  handle-IsValid fails report c v = fails-IsValid report c v

  -- For a device that is registered: if the last report of its connections is in a buffer or in the
  -- running flush, or none is and it is what the rows hold, then the same is true of its last
  -- report after any sequence of heartbeats and of starts, commits and failures of flushes.
  pub handle_all-IsValid :
      (es : List Event) (report : Option (List ℕ)) (c : Cache)
      → IsValid uuid report c
      → IsValid uuid (latest_of uuid es report) (handle_all es c)
  handle_all-IsValid [] report c v = v
  handle_all-IsValid (e ∷ es) report c v =
      handle_all-IsValid es (latest uuid e report) (handle e c) (handle-IsValid e report c v)
