-- ===== src/Heartbeat/Cache/Snapshots.antt =====
-- The buffers and the snapshots as dictionaries: what is put back after a failed flush, and what a
-- snapshot's connections leave in the rows.
use rustdesk_console.Common.{
  ℕ, String, ◌≡◌, refl, sym, ap, ◌∙◌, ◌⊎◌, inl, inr, Bool, true, false, not, ◌&&◌, ◌||◌, Option,
  none, some, List, [], ◌∷◌, ◌==◌, string_eq, nat_eq, ==_iff, ==_comm, if◌then◌else◌, any, includes,
  lookup, put, lookup-put, arith, Bool-cases,
}
use rustdesk_console.Heartbeat.Cache.{
  Rows, BufferedPeerUpdate, or_else, update_peer, has_peer, sync_one, write_peers, write_conns,
  restore_entry, restore,
}
use rustdesk_console.Heartbeat.Cache.Sync.{holds, holds-sync_connections}

module _ {V : Type 0} where
  abbrev pub has : String → List (String × V) → Bool
  has k m = any (λ e. e.0 == k) m

  -- Each key once.
  abbrev pub distinct : List (String × V) → Bool
  distinct [] = true
  distinct ((k, v) ∷ m) = not (has k m) && distinct m

  has-put :
      (j k : String) (v : V) (m : List (String × V)) → has j (put k v m) ≡ ((k == j) || has j m)
  has-put j k v [] = refl
  has-put j k v ((i, w) ∷ m) = ground (arith, ==_iff k j, ==_iff i k, ==_iff i j, has-put j k v m)

  pub distinct-put :
      (k : String) (v : V) (m : List (String × V)) → distinct m ≡ true → distinct (put k v m) ≡ true
  distinct-put k v [] h = refl
  distinct-put k v ((i, w) ∷ m) h = ground (arith, has-put i k v m, distinct-put k v m, ==_comm k i)

  abbrev pub found : Option V → Bool
  found none = false
  found (some v) = true

  found-lookup : (k : String) (m : List (String × V)) → found (lookup k m) ≡ has k m
  found-lookup k [] = refl
  found-lookup k ((i, w) ∷ m) = ground (arith, found-lookup k m)

  pub distinct-restore :
      (m buffer : List (String × V)) → distinct buffer ≡ true → distinct (restore m buffer) ≡ true
  unfolding restore
  distinct-restore [] buffer h = h
  distinct-restore ((k, v) ∷ m) buffer h =
      distinct-restore m (restore_entry k v buffer) (ground (arith, distinct-put k v buffer))

pub or_else-none : (o : Option (List ℕ)) → or_else o none ≡ o
or_else-none none = refl
or_else-none (some a) = refl

or_else-found : (o a b : Option (List ℕ)) → found o ≡ true → or_else o a ≡ or_else o b
or_else-found none a b h = cc
or_else-found (some x) a b h = refl

or_else-missing : (o a : Option (List ℕ)) → found o ≡ false → or_else o a ≡ a
or_else-missing none a h = refl
or_else-missing (some x) a h = cc

lookup-restore_entry :
    (uuid k : String) (v : List ℕ) (buffer : List (String × List ℕ)) (later : Option (List ℕ))
    → or_else (lookup uuid (restore_entry k v buffer)) later
      ≡ or_else (lookup uuid buffer) (if k == uuid then some v else later)
lookup-restore_entry uuid k v buffer later = elim (Bool-cases (k == uuid)) [
  | inl hit ↦
      let same = ap (λ x. has x buffer) ((==_iff k uuid).0 hit) in
      ground (
        arith,
        same,
        found-lookup uuid buffer,
        lookup-put k uuid v buffer,
        or_else-found (lookup uuid buffer) later (some v),
        or_else-missing (lookup uuid buffer) (some v),
      )
  | inr other ↦ ground (arith, lookup-put k uuid v buffer)
]

-- What was buffered meanwhile comes before what is put back.
pub lookup-restore :
    (uuid : String) (m buffer : List (String × List ℕ))
    → lookup uuid (restore m buffer) ≡ or_else (lookup uuid buffer) (lookup uuid m)
unfolding restore
lookup-restore uuid [] buffer = sym (or_else-none (lookup uuid buffer))
lookup-restore uuid ((k, v) ∷ m) buffer =
    lookup-restore uuid m (restore_entry k v buffer)
    ∙ lookup-restore_entry uuid k v buffer (lookup uuid m)

has_peer-update_peer :
    (uuid k : String) (u : BufferedPeerUpdate) (rows : List (String × BufferedPeerUpdate))
    → any (λ r. r.0 == uuid) (update_peer k u rows) ≡ any (λ r. r.0 == uuid) rows
has_peer-update_peer uuid k u [] = refl
has_peer-update_peer uuid k u ((i, w) ∷ rows) = ground (arith, has_peer-update_peer uuid k u rows)

pub has_peer-write_peers :
    (uuid : String) (m : List (String × BufferedPeerUpdate)) (rows : Rows)
    → (has_peer uuid (write_peers m rows) ≡ has_peer uuid rows)
      × ((write_peers m rows).connections ≡ rows.connections)
unfolding write_peers
has_peer-write_peers uuid [] rows = (refl, refl)
has_peer-write_peers uuid ((k, u) ∷ m) rows =
    let (same, kept) =
      has_peer-write_peers uuid m (record rows { peers = update_peer k u rows.peers }) in
    (same ∙ has_peer-update_peer uuid k u rows.peers, kept)

-- What a report says of a connection, or else what is stored.
abbrev pub says : Option (List ℕ) → ℕ → Bool → Bool
says none id stored = stored
says (some conns) id stored = includes conns id

pub holds-write_conns :
    (uuid : String) (id : ℕ) (m : List (String × List ℕ)) (rows : Rows)
    → distinct m ≡ true
    → has_peer uuid rows ≡ true
    → holds uuid id (write_conns m rows).connections
      ≡ says (lookup uuid m) id (holds uuid id rows.connections)
unfolding write_conns
holds-write_conns uuid id [] rows d h = refl
holds-write_conns uuid id ((k, conns) ∷ m) rows d h =
    holds-write_conns uuid id m (sync_one k conns rows) (ground arith)
      (has_peer-sync_one uuid k conns rows ∙ h)
    ∙ after_first (Bool-cases (k == uuid))
  where
    has_peer-sync_one :
        (uuid k : String) (conns : List ℕ) (rows : Rows)
        → has_peer uuid (sync_one k conns rows) ≡ has_peer uuid rows
    has_peer-sync_one uuid k conns rows = ground arith

    after_first :
        ((k == uuid) ≡ true) ⊎ ((k == uuid) ≡ false)
        → says (lookup uuid m) id (holds uuid id (sync_one k conns rows).connections)
          ≡ says
              (if k == uuid then some conns else lookup uuid m)
              id
              (holds uuid id rows.connections)
    after_first (inl hit) =
        let same = (==_iff k uuid).0 hit in
        ground (
          arith,
          ap (λ x. has x m) same,
          ap (λ x. has_peer x rows) same,
          found-lookup uuid m,
          holds-sync_connections k conns rows.connections uuid id,
        )
    after_first (inr other) =
        ground (arith, holds-sync_connections k conns rows.connections uuid id)
