-- ===== src/Strategy/Resolution.antt =====
-- modules/strategy/strategy.service.ts: the strategy of a device, by its own assignment, its user's
-- or its device group's, through the two caches of the service.
use rustdesk_console.Common.{String, Option, none, some, List, ◌==◌, string_eq, if◌then◌else◌}
use rustdesk_console.Rbac.Authorization.{DeniedEvent, truthy}
use rustdesk_console.Strategy.Store.{Strategy, Peer, Holder, Store}

-- A cache is a map from keys to what is cached.
abbrev pub Entries : Type 0 → Type 0
Entries A = String → Option A

abbrev pub cached : {A : Type 0} → String → A → Entries A → Entries A
cached k a m j = if k == j then some a else m j

abbrev pub dropped : {A : Type 0} → String → Entries A → Entries A
dropped k m j = if k == j then none else m j

abbrev pub cleared : {A : Type 0} → Entries A
cleared j = none

-- The service: the database, what has been audited, and the caches.
pub record Service (D : Type 0) : Type 0 where
  pub rows : D
  pub log : List DeniedEvent
  pub strategy_object_cache : Entries Strategy
  pub device_strategy_cache : Entries (Option String)

abbrev pub or_else : {A : Type 0} → Option A → Option A → Option A
or_else none other = other
or_else (some a) other = some a

-- `if (guid) findOne({ guid })`.
abbrev pub asked : {A : Type 0} → Option String → (String → Option A) → Option A
asked none find = none
asked (some g) find = if truthy (some g) then find g else none

module _ {D : Type 0} (db : Store D) where
  abbrev pub strategy_of : Option String → D → Option Strategy
  strategy_of guid d = asked guid (λ g. db.find_strategy g d)

  abbrev pub held_by : Option Holder → D → Option Strategy
  held_by none d = none
  held_by (some h) d = strategy_of h.strategy_guid d

  unfoldable pub resolve_strategy_for_peer : Peer → D → Option Strategy
  resolve_strategy_for_peer peer d = or_else (strategy_of peer.strategy_guid d) (
      or_else (held_by (asked peer.user_guid (λ g. db.find_user g d)) d)
        (held_by (asked peer.device_group_guid (λ g. db.find_group g d)) d))

  abbrev pub remembered : Peer → Option Strategy → Service D → Service D
  remembered peer none w = record {
    rows = w.rows;
    log = w.log;
    strategy_object_cache = w.strategy_object_cache;
    device_strategy_cache = cached peer.uuid none w.device_strategy_cache;
  }
  remembered peer (some s) w = record {
    rows = w.rows;
    log = w.log;
    strategy_object_cache = cached s.guid s w.strategy_object_cache;
    device_strategy_cache = cached peer.uuid (some s.guid) w.device_strategy_cache;
  }

  -- Resolves, and fills the caches.
  abbrev pub resolve_and_remember : Peer → Service D → Option Strategy × Service D
  resolve_and_remember peer w =
      let result = resolve_strategy_for_peer peer w.rows in (result, remembered peer result w)

  abbrev pub from_object : Option Strategy → Peer → Service D → Option Strategy × Service D
  from_object none peer w = resolve_and_remember peer w
  from_object (some s) peer w = (some s, w)

  abbrev pub from_cache : Option (Option String) → Peer → Service D → Option Strategy × Service D
  from_cache none peer w = resolve_and_remember peer w
  from_cache (some none) peer w = (none, w)
  from_cache (some (some g)) peer w = from_object (w.strategy_object_cache g) peer w

  unfoldable pub find_strategy_for_peer : Peer → Service D → Option Strategy × Service D
  find_strategy_for_peer peer w = from_cache (w.device_strategy_cache peer.uuid) peer w

  abbrev pub for_found : Option Peer → Service D → Option Strategy × Service D
  for_found none w = (none, w)
  for_found (some peer) w = find_strategy_for_peer peer w

  unfoldable pub find_strategy_for_device : String → Service D → Option Strategy × Service D
  find_strategy_for_device device_uuid w = for_found (db.find_peer device_uuid w.rows) w

abbrev pub uncached : {D : Type 0} → Entries (Option String) → Service D → Service D
uncached devices w = record {
  rows = w.rows;
  log = w.log;
  strategy_object_cache = w.strategy_object_cache;
  device_strategy_cache = devices;
}

unfoldable pub invalidate_device_strategy_cache :
    {D : Type 0} → Option String → Service D → Service D
invalidate_device_strategy_cache none w = uncached cleared w
invalidate_device_strategy_cache (some u) w =
    if truthy (some u) then uncached (dropped u w.device_strategy_cache) w else uncached cleared w
