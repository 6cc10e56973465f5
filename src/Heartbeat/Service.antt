-- ===== src/Heartbeat/Service.antt =====
-- modules/heartbeat/heartbeat.service.ts: one heartbeat of a device, which meets the buffers, the
-- pending disconnections and the strategies, and what it is answered.
use rustdesk_console.Common.{
  ℕ, String, Bool, true, false, ◌&&◌, Option, none, some, List, ◌==◌, string_eq, nat_eq, ltb,
  if◌then◌else◌, includes,
}
use rustdesk_console.Common.Effects.{Result, ok, err}
use rustdesk_console.Strategy.Store.{Strategy, Peer, Store, is_found, is_some_guid}
use rustdesk_console.Strategy.Resolution.{Service, find_strategy_for_peer}
use rustdesk_console.Strategy.Changes.{Options, with_rows}
use rustdesk_console.Strategy.Binding.{Devices, resolve_device_uuid}
use rustdesk_console.Heartbeat.Cache.{Cache, BufferedPeerUpdate, buffer_peer_update, buffer_conns}
use rustdesk_console.Heartbeat.Disconnects.{Pending, get_pending_disconnects, remove_disconnected}

pub record HeartbeatDto : Type 0 where
  pub id : String
  pub uuid : String
  pub ver : ℕ
  pub modified_at : ℕ
  pub conns : Option (List ℕ)

-- `disconnect` is left out of the answer when it is empty.
pub record Reply : Type 0 where
  pub disconnect : List ℕ
  pub strategy : Option (Options × ℕ)

-- The tombstones, each with the device's identifier, and the registration of a device.
pub record Registry (D : Type 0) : Type 0 where
  pub find_tombstone : String → D → Option (Option String)
  pub save_peer : String → BufferedPeerUpdate → D → D

pub record Hub (D : Type 0) : Type 0 where
  pub cache : Cache
  pub pending : Pending
  pub strategies : Service D

abbrev pub names_id : Option (Option String) → String → Bool
names_id none id = false
names_id (some device_id) id = is_some_guid device_id id

module _ {D : Type 0} (db : Store D) (devices : Devices D) (registry : Registry D)
    (parse : String → Result String Options) where
  abbrev pub parsed_reply : Result String Options → ℕ → Option (Options × ℕ)
  parsed_reply (ok o) updated_at = some (o, updated_at)
  parsed_reply (err e) updated_at = none

  -- A strategy is sent if it is newer than what the client has; an error is logged.
  abbrev pub strategy_reply : Option Strategy → ℕ → Option (Options × ℕ)
  strategy_reply none client_modified_at = none
  strategy_reply (some s) client_modified_at =
      if ltb client_modified_at s.updated_at
      then parsed_reply (parse (if s.config_options == "" then "{}" else s.config_options))
          s.updated_at
      else none

  abbrev pub update_of : ℕ → HeartbeatDto → BufferedPeerUpdate
  update_of now beat = record {
    last_heartbeat = now;
    id = beat.id;
    ver = beat.ver;
    modified_at = beat.modified_at;
  }

  abbrev pub reported : String → Option (List ℕ) → Hub D → Hub D
  reported uuid none w = w
  reported uuid (some conns) w = record {
    cache = buffer_conns uuid conns w.cache;
    pending = remove_disconnected uuid conns w.pending;
    strategies = w.strategies;
  }

  abbrev pub answer_known : String → Peer → HeartbeatDto → Hub D → Reply × Hub D
  answer_known uuid peer beat w =
      let found = find_strategy_for_peer db peer w.strategies in
      (
        record {
          disconnect = get_pending_disconnects uuid w.pending;
          strategy = strategy_reply found.0 beat.modified_at;
        },
        record { cache = w.cache; pending = w.pending; strategies = found.1 },
      )

  abbrev pub some_reply : Reply × Hub D → Option Reply × Hub D
  some_reply (reply, w) = (some reply, w)

  -- A device that is registered.
  unfoldable pub handle_known : ℕ → HeartbeatDto → String → Peer → Hub D → Option Reply × Hub D
  handle_known now beat uuid peer w = some_reply (
      answer_known uuid peer beat (
        reported uuid beat.conns (record {
          cache = buffer_peer_update uuid (update_of now beat) w.cache;
          pending = w.pending;
          strategies = w.strategies;
        })))

  -- A device that is not registered is, unless it has been deleted.
  unfoldable pub handle_new : ℕ → HeartbeatDto → String → Hub D → Option Reply × Hub D
  handle_new now beat uuid w =
      if is_found (registry.find_tombstone uuid w.strategies.rows)
      then (none, w)
      else (let registered = reported uuid beat.conns (record {
        cache = w.cache;
        pending = w.pending;
        strategies =
            with_rows (registry.save_peer uuid (update_of now beat) w.strategies.rows) w.strategies;
      }) in
          (
            some (record {
              disconnect = get_pending_disconnects uuid registered.pending;
              strategy = none;
            }),
            registered,
          ))

  abbrev pub handle_found : Option Peer → ℕ → HeartbeatDto → String → Hub D → Option Reply × Hub D
  handle_found none now beat uuid w = handle_new now beat uuid w
  handle_found (some peer) now beat uuid w = handle_known now beat uuid peer w

  abbrev pub device_of : Bool → HeartbeatDto → Hub D → String
  device_of clone_isolation beat w =
      resolve_device_uuid db devices beat.uuid beat.id clone_isolation w.strategies.rows

  unfoldable pub handle_heartbeat : Bool → ℕ → HeartbeatDto → Hub D → Option Reply × Hub D
  handle_heartbeat clone_isolation now beat w =
      if clone_isolation && names_id (registry.find_tombstone beat.uuid w.strategies.rows) beat.id
      then (none, w)
      else (let uuid = device_of clone_isolation beat w in
          handle_found (db.find_peer uuid w.strategies.rows) now beat uuid w)

-- Does the report hold the connection? No report says nothing.
abbrev pub reports : Option (List ℕ) → ℕ → Bool
reports none c = true
reports (some conns) c = includes conns c
