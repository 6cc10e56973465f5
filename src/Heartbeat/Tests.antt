-- ===== src/Heartbeat/Tests.antt =====
-- Devices that report while flushes fail and commit, and the theorems on them.
use rustdesk_console.Heartbeat.Connections.{
  get_active_connection_ids, get_active_connection_ids-latest,
}
use rustdesk_console.Common.{
  ℕ, String, ◌≡◌, refl, true, false, none, some, List, [], ◌∷◌, includes, string_eq, nat_eq,
}
use rustdesk_console.Common.{arith}
use rustdesk_console.Common.Effects.{Result, ok}
use rustdesk_console.Strategy.Store.{Peer}
use rustdesk_console.Strategy.Tables.{Tables, store, store-IsStore}
use rustdesk_console.Strategy.Resolution.{
  cleared, find_strategy_for_peer, resolve_strategy_for_peer,
}
use rustdesk_console.Strategy.Coherence.{IsCoherent}
use rustdesk_console.Strategy.Changes.{Options}
use rustdesk_console.Strategy.Binding.{Devices, resolve_device_uuid}
use rustdesk_console.Heartbeat.Disconnects.{get_pending_disconnects, remove_disconnected}
use rustdesk_console.Heartbeat.Service.{
  HeartbeatDto, Registry, Hub, device_of, handle_heartbeat, handle_known,
}
use rustdesk_console.Heartbeat.Answers.{Outcome, handle_heartbeat-Outcome}
use rustdesk_console.Heartbeat.Cache.{
  Cache, BufferedPeerUpdate, get_buffered_conns, buffer_conns, start_flush, commit_flush,
  fail_flush, buffer_peer_update, write_peers, write_conns, sync_connections, restore,
}
use rustdesk_console.Heartbeat.Cache.Sync.{holds}
use rustdesk_console.Heartbeat.Cache.Delivery.{
  Event, reports_conns, starts, commits, fails, handle_all, latest_of, IsValid, handle_all-IsValid,
}

abbrev update : BufferedPeerUpdate
update = record { last_heartbeat = 1; id = "1"; ver = 1; modified_at = 1 }

abbrev empty : Cache
empty = record {
  peer_buffer = [];
  conns_buffer = [];
  peer_snapshot = [];
  flushing_conns = [];
  flushing = false;
  rows = record { peers = ("d", update) ∷ []; connections = [] };
}

-- A report is buffered while the flush of an older one fails, and is then stored.
abbrev events : List Event
events =
    reports_conns "d" (1 ∷ [])
    ∷ starts
    ∷ reports_conns "d" (2 ∷ 3 ∷ [])
    ∷ fails
    ∷ starts
    ∷ commits
    ∷ []

empty-IsValid : IsValid "d" none empty
unfolding get_buffered_conns
empty-IsValid = record {
  keys = refl;
  flushed_keys = refl;
  idle = refl;
  registered = refl;
  delivered = refl;
}

handle_all-IsValid_example : IsValid "d" (latest_of "d" events none) (handle_all events empty)
handle_all-IsValid_example = handle_all-IsValid "d" events none empty empty-IsValid

get_active_connection_ids-latest_example :
    includes (get_active_connection_ids "d" (handle_all events empty)) 3
    ≡ includes {A = ℕ} (2 ∷ 3 ∷ []) 3
get_active_connection_ids-latest_example =
    get_active_connection_ids-latest "d" events none empty (2 ∷ 3 ∷ []) 3 empty-IsValid refl

events_test :
    (latest_of "d" events none ≡ some (2 ∷ 3 ∷ []))
    × (holds "d" 3 (handle_all events empty).rows.connections ≡ true)
    × (holds "d" 1 (handle_all events empty).rows.connections ≡ false)
unfolding buffer_conns start_flush commit_flush fail_flush buffer_peer_update write_peers
    write_conns sync_connections restore
events_test = (refl, refl, refl)

-- A device with two connections to close, one of which it still reports.
abbrev desk : Peer
desk = record {
  uuid = "d";
  user_guid = none;
  device_group_guid = none;
  strategy_guid = some "gold";
}

abbrev hub : Hub Tables
hub = record {
  cache = empty;
  pending = ("d", 1 ∷ 2 ∷ []) ∷ [];
  strategies = record {
    rows = record {
      strategies =
          record { guid = "gold"; name = "Gold"; note = ""; config_options = "{}"; updated_at = 9 }
          ∷ [];
      peers = desk ∷ [];
      users = [];
      groups = [];
    };
    log = [];
    strategy_object_cache = cleared;
    device_strategy_cache = cleared;
  };
}

abbrev devices : Devices Tables
devices = record {
  device_id = λ u t. some u;
  set_user = λ u g t. t;
  isolated_device_uuid = λ u i. i;
}

abbrev registry : Registry Tables
registry = record { find_tombstone = λ u t. none; save_peer = λ u update t. t }

abbrev parse : String → Result String Options
parse s = ok []

abbrev beat : HeartbeatDto
beat = record { id = "1"; uuid = "d"; ver = 1; modified_at = 3; conns = some (2 ∷ 5 ∷ []) }

cleared-IsCoherent : IsCoherent store hub.strategies
cleared-IsCoherent = record { objects = λ g s h. ground arith; devices = λ u c p h e. ground arith }

handle_heartbeat-Outcome_example :
    Outcome store store-IsStore devices registry parse
      (device_of store devices registry parse false beat hub)
      beat
      hub
      (handle_heartbeat store devices registry parse false 4 beat hub)
handle_heartbeat-Outcome_example =
    handle_heartbeat-Outcome store store-IsStore devices registry parse false 4 beat hub
      cleared-IsCoherent

desk_answer :
    (handle_heartbeat store devices registry parse false 4 beat hub).0
    ≡ some (record { disconnect = 2 ∷ []; strategy = some ([], 9) })
unfolding handle_heartbeat handle_known resolve_device_uuid get_pending_disconnects
    remove_disconnected find_strategy_for_peer resolve_strategy_for_peer
desk_answer = refl
