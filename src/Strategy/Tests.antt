-- ===== src/Strategy/Tests.antt =====
-- Sample tables of strategies, devices, users and groups, and the theorems on them.
use rustdesk_console.Strategy.Tables.{Tables, with_peers, store, store-IsStore}
use rustdesk_console.Common.{
  String, ◌≡◌, refl, true, false, Option, none, some, List, [], ◌∷◌, map, ◌==◌, string_eq, nat_eq,
  if◌then◌else◌, arith,
}
use rustdesk_console.Common.Effects.{Result, ok, get, modify, pure, throw, ◌>>=◌}
use rustdesk_console.Rbac.Authorization.{opened}
use rustdesk_console.Rbac.Protection.{device, protection_opened}
use rustdesk_console.Strategy.Resolution.{
  Service, cleared, find_strategy_for_peer, find_strategy_for_device, resolve_strategy_for_peer,
  invalidate_device_strategy_cache,
}
use rustdesk_console.Strategy.Coherence.{
  IsCoherent, find_strategy_for_peer-resolve_strategy_for_peer,
}
use rustdesk_console.Strategy.Changes.{Options, delete_strategy}
use rustdesk_console.Rbac.Catalog.{effective_opened}
use rustdesk_console.Strategy.Binding.{
  Devices, create_or_update_device, is_cached, create_or_update_device-find_strategy_for_peer,
}
use rustdesk_console.Strategy.Invariant.{Steps-IsCoherent, done, next, looked_up, deleted}
use rustdesk_console.Strategy.Assignment.{
  TargetError, assign_strategy, and_invalidate, transaction, assign_targets, assign_found,
  assert_targets, authorized, update_rows,
}
use rustdesk_console.Strategy.Assignment.Devices.{
  IsAssigned, assign_strategy-IsAssigned, assign_strategy-find_strategy_for_peer,
}
use rustdesk_console.Strategy.Store.{Strategy, Peer, with_strategy}

abbrev gold : Strategy
gold = record { guid = "gold"; name = "Gold"; note = ""; config_options = "{}"; updated_at = 5 }

abbrev silver : Strategy
silver = record {
  guid = "silver";
  name = "Silver";
  note = "";
  config_options = "{}";
  updated_at = 7;
}

abbrev laptop : Peer
laptop = record {
  uuid = "laptop";
  user_guid = some "ann";
  device_group_guid = some "office";
  strategy_guid = none;
}

abbrev sample : Tables
sample = record {
  strategies = gold ∷ silver ∷ [];
  peers = laptop ∷ [];
  users = record { guid = "ann"; strategy_guid = some "silver" } ∷ [];
  groups = record { guid = "office"; strategy_guid = some "gold" } ∷ [];
}

abbrev fresh : Service Tables
fresh = record {
  rows = sample;
  log = [];
  strategy_object_cache = cleared;
  device_strategy_cache = cleared;
}

fresh-IsCoherent : IsCoherent store fresh
fresh-IsCoherent = record { objects = λ g s h. ground arith; devices = λ u c p h e. ground arith }

find_strategy_for_peer-resolve_strategy_for_peer_example :
    ((find_strategy_for_peer store laptop fresh).0 ≡ resolve_strategy_for_peer store laptop sample)
    × ((find_strategy_for_peer store laptop fresh).1.rows ≡ sample)
    × IsCoherent store (find_strategy_for_peer store laptop fresh).1
find_strategy_for_peer-resolve_strategy_for_peer_example =
    find_strategy_for_peer-resolve_strategy_for_peer store store-IsStore laptop fresh
      fresh-IsCoherent refl

-- The user's strategy comes before the group's.
laptop_strategy : (find_strategy_for_peer store laptop fresh).0 ≡ some silver
unfolding find_strategy_for_peer resolve_strategy_for_peer
laptop_strategy = refl

abbrev stringify : Options → String
stringify o = "{}"

abbrev parse : String → Result String Options
parse s = ok []

abbrev looked : Service Tables
looked = (find_strategy_for_peer store laptop fresh).1

Steps-IsCoherent_example : IsCoherent store (delete_strategy store "silver" looked).1
Steps-IsCoherent_example =
    Steps-IsCoherent store store-IsStore stringify parse fresh
      (delete_strategy store "silver" looked).1
      (next (next (done fresh) (looked_up laptop fresh refl)) (deleted "silver" looked))
      fresh-IsCoherent

-- After the user's strategy is deleted, the device gets its group's.
laptop_fallback :
    (find_strategy_for_device store "laptop" (delete_strategy store "silver" looked).1).0
    ≡ some gold
unfolding find_strategy_for_device find_strategy_for_peer resolve_strategy_for_peer delete_strategy
    modify get ◌>>=◌ pure throw
laptop_fallback = refl

abbrev targets : List String
targets = "laptop" ∷ "ghost" ∷ "laptop" ∷ []

abbrev errors : List TargetError
errors = record { target_guid = "ghost"; reason = "Device not found" } ∷ []

abbrev assigned : Service Tables
assigned = (assign_strategy store "gold" device targets "root" looked).1

-- Everything that an assignment computes with.
unfoldable assign_opened : Unit {0}
unfolding assign_strategy and_invalidate transaction assign_targets assign_found assert_targets
    authorized update_rows invalidate_device_strategy_cache opened protection_opened
    effective_opened find_strategy_for_peer resolve_strategy_for_peer get
assign_opened = tt

assigns :
    assign_strategy store "gold" device targets "root" looked
    ≡ (ok ("laptop" ∷ [], errors), assigned)
unfolding assign_opened
assigns = refl

abbrev laptop_gold : Peer
laptop_gold = with_strategy (some "gold") laptop

stored_row : store.find_peer "laptop" assigned.rows ≡ some laptop_gold
unfolding assign_opened
stored_row = refl

assign_strategy-IsAssigned_example :
    IsAssigned store "gold" "root" targets ("laptop" ∷ []) errors looked assigned
assign_strategy-IsAssigned_example =
    assign_strategy-IsAssigned store store-IsStore "gold" "root" targets looked assigned
      ("laptop" ∷ []) errors assigns

assign_strategy-find_strategy_for_peer_example :
    (s : Strategy) × (store.find_strategy "gold" looked.rows ≡ some s)
    × ((find_strategy_for_peer store laptop_gold assigned).0 ≡ some s)
assign_strategy-find_strategy_for_peer_example =
    assign_strategy-find_strategy_for_peer store store-IsStore "gold" "root" targets looked assigned
      ("laptop" ∷ []) errors assigns refl "laptop" laptop_gold refl stored_row

abbrev desk : Peer
desk = record { uuid = "desk"; user_guid = none; device_group_guid = none; strategy_guid = none }

abbrev unbound : Service Tables
unbound = record {
  rows = with_peers (desk ∷ []) sample;
  log = [];
  strategy_object_cache = cleared;
  device_strategy_cache = cleared;
}

abbrev set_user : String → Option String → Tables → Tables
set_user u g t = with_peers (map (λ p. if p.uuid == u then with_user p else p) t.peers) t
  where
    with_user : Peer → Peer
    with_user p = record {
      uuid = p.uuid;
      user_guid = g;
      device_group_guid = p.device_group_guid;
      strategy_guid = p.strategy_guid;
    }

abbrev logins : Devices Tables
logins = record { device_id = λ u t. some u; set_user = set_user; isolated_device_uuid = λ u i. i }

abbrev seen : Service Tables
seen = (find_strategy_for_peer store desk unbound).1

abbrev logged_in : Service Tables
logged_in = create_or_update_device store logins "ann" none (some "desk") false seen

abbrev desk_ann : Peer
desk_ann = record {
  uuid = "desk";
  user_guid = some "ann";
  device_group_guid = none;
  strategy_guid = none;
}

-- Ann's strategy is what the row resolves to after she logs in, but the lookup still returns none.
desk_resolves :
    (store.find_peer "desk" logged_in.rows ≡ some desk_ann)
    × (resolve_strategy_for_peer store desk_ann logged_in.rows ≡ some silver)
    × ((find_strategy_for_peer store desk_ann logged_in).0 ≡ none)
unfolding find_strategy_for_peer resolve_strategy_for_peer create_or_update_device
desk_resolves = (refl, refl, refl)

desk_cached : is_cached store logins "desk" seen ≡ true
unfolding find_strategy_for_peer resolve_strategy_for_peer
desk_cached = refl

create_or_update_device-find_strategy_for_peer_example :
    (find_strategy_for_peer store desk_ann logged_in).0 ≡ (find_strategy_for_peer store desk seen).0
create_or_update_device-find_strategy_for_peer_example =
    create_or_update_device-find_strategy_for_peer store logins "ann" none (some "desk") false seen
      desk desk_ann desk_cached refl
