-- ===== src/Heartbeat/Cache.antt =====
-- modules/heartbeat/services/heartbeat-cache.service.ts: the buffers, the flush that writes them in one
-- transaction, and the synchronisation of a device's connections. A flush that runs meanwhile is
-- two steps, between which other heartbeats may be buffered.
pub mod Sync
pub mod Snapshots
pub mod Delivery
use rustdesk_console.Common.{
  ℕ, String, Bool, true, false, not, ◌&&◌, ◌||◌, Option, none, some, List, [], ◌∷◌, ◌++◌, map, ◌==◌,
  string_eq, nat_eq, if◌then◌else◌, filter, any, includes, lookup, put,
}

pub record BufferedPeerUpdate : Type 0 where
  pub last_heartbeat : ℕ
  pub id : String
  pub ver : ℕ
  pub modified_at : ℕ

-- The rows of the devices by their uuid, and of the connections: the device's uuid and the number.
pub record Rows : Type 0 where
  pub peers : List (String × BufferedPeerUpdate)
  pub connections : List (String × ℕ)

-- `flushing` is whether a flush is running; the snapshots are the maps that it writes.
pub record Cache : Type 0 where
  pub peer_buffer : List (String × BufferedPeerUpdate)
  pub conns_buffer : List (String × List ℕ)
  pub peer_snapshot : List (String × BufferedPeerUpdate)
  pub flushing_conns : List (String × List ℕ)
  pub flushing : Bool
  pub rows : Rows

unfoldable pub buffer_peer_update : String → BufferedPeerUpdate → Cache → Cache
buffer_peer_update uuid update c = record c { peer_buffer = put uuid update c.peer_buffer }

unfoldable pub buffer_conns : String → List ℕ → Cache → Cache
buffer_conns uuid conns c = record c { conns_buffer = put uuid conns c.conns_buffer }

abbrev pub or_else : Option (List ℕ) → Option (List ℕ) → Option (List ℕ)
or_else none b = b
or_else (some a) b = some a

unfoldable pub get_buffered_conns : String → Cache → Option (List ℕ)
get_buffered_conns uuid c = or_else (lookup uuid c.conns_buffer) (lookup uuid c.flushing_conns)

abbrev pub is_empty {ℓ} : {A : Type ℓ} → List A → Bool
is_empty [] = true
is_empty (x ∷ xs) = false

-- `flush` up to its transaction: nothing happens if one is running or nothing is buffered.
unfoldable pub start_flush : Cache → Cache
start_flush c =
    if c.flushing || (is_empty c.peer_buffer && is_empty c.conns_buffer) then c else record c {
      flushing = true;
      peer_snapshot = c.peer_buffer;
      flushing_conns = c.conns_buffer;
      peer_buffer = [];
      conns_buffer = [];
    }

-- `manager.update(Peer, { uuid }, update)`.
abbrev pub update_peer :
    String
    → BufferedPeerUpdate
    → List (String × BufferedPeerUpdate)
    → List (String × BufferedPeerUpdate)
update_peer uuid update rows = map (λ r. if r.0 == uuid then (r.0, update) else r) rows

abbrev pub has_peer : String → Rows → Bool
has_peer uuid rows = any (λ r. r.0 == uuid) rows.peers

abbrev pub conns_of : String → List (String × ℕ) → List ℕ
conns_of uuid rows = map (λ r. r.1) (filter (λ r. r.0 == uuid) rows)

unfoldable pub sync_connections : String → List ℕ → List (String × ℕ) → List (String × ℕ)
sync_connections uuid reported rows =
    let existing = conns_of uuid rows in
    let to_remove = filter (λ id. not (includes reported id)) existing in
    let to_add = filter (λ id. not (includes existing id)) reported in
    filter (λ r. not ((r.0 == uuid) && includes to_remove r.1)) rows
    ++ map (λ id. (uuid, id)) to_add

unfoldable pub write_peers : List (String × BufferedPeerUpdate) → Rows → Rows
write_peers [] rows = rows
write_peers ((uuid, update) ∷ rest) rows =
    write_peers rest (record rows { peers = update_peer uuid update rows.peers })

-- A device that is gone is passed over.
abbrev pub sync_one : String → List ℕ → Rows → Rows
sync_one uuid conns rows =
    if has_peer uuid rows
    then record rows { connections = sync_connections uuid conns rows.connections }
    else rows

unfoldable pub write_conns : List (String × List ℕ) → Rows → Rows
write_conns [] rows = rows
write_conns ((uuid, conns) ∷ rest) rows = write_conns rest (sync_one uuid conns rows)

-- `finally`.
abbrev pub finished : Cache → Cache
finished c = record c { flushing = false; peer_snapshot = []; flushing_conns = [] }

-- The transaction of the running flush commits.
unfoldable pub commit_flush : Cache → Cache
commit_flush c =
    if c.flushing
    then finished
        (record c { rows = write_conns c.flushing_conns (write_peers c.peer_snapshot c.rows) })
    else c

-- An entry is put back unless a newer one has been buffered.
abbrev pub restore_entry {ℓ} : {V : Type ℓ} → String → V → List (String × V) → List (String × V)
restore_entry uuid v buffer = if any (λ e. e.0 == uuid) buffer then buffer else put uuid v buffer

unfoldable pub restore {ℓ} :
    {V : Type ℓ} → List (String × V) → List (String × V) → List (String × V)
restore [] buffer = buffer
restore ((uuid, v) ∷ rest) buffer = restore rest (restore_entry uuid v buffer)

-- The transaction of the running flush fails, and is rolled back.
unfoldable pub fail_flush : Cache → Cache
fail_flush c =
    if c.flushing
    then finished (record c {
      peer_buffer = restore c.peer_snapshot c.peer_buffer;
      conns_buffer = restore c.flushing_conns c.conns_buffer;
    })
    else c
