-- ===== src/Strategy/Store.antt =====
-- The rows that strategies are resolved from (modules/strategy/entities, common/entities/peer.entity.ts)
-- and the database calls of modules/strategy/strategy.service.ts. The object-relational mapper is a
-- library: its calls are a parameter, and what they do is a named hypothesis.
use rustdesk_console.Common.{
  ℕ, String, ◌≡◌, Bool, true, false, ◌&&◌, Option, none, some, List, ◌==◌, string_eq, if◌then◌else◌,
  map, includes, length,
}
use rustdesk_console.Rbac.Database.{Database}
use rustdesk_console.Rbac.Protection.{TargetType, device}

pub record Strategy : Type 0 where
  pub guid : String
  pub name : String
  pub note : String
  pub config_options : String
  pub updated_at : ℕ

pub record Peer : Type 0 where
  pub uuid : String
  pub user_guid : Option String
  pub device_group_guid : Option String
  pub strategy_guid : Option String

-- A user or a device group, as far as strategies read it.
pub record Holder : Type 0 where
  pub guid : String
  pub strategy_guid : Option String

abbrev pub is_some_guid : Option String → String → Bool
is_some_guid none g = false
is_some_guid (some h) g = h == g

-- The criteria of an update: the keys, the device groups if they are limited, and the strategy that
-- the rows must have if one is named.
pub record Criteria : Type 0 where
  pub guids : List String
  pub within : Option (List String)
  pub bound_to : Option String

abbrev pub in_groups : Option (List String) → Option String → Bool
in_groups none group = true
in_groups (some guids) none = false
in_groups (some guids) (some group) = includes guids group

abbrev pub has_strategy : Option String → Option String → Bool
has_strategy none held = true
has_strategy (some g) held = is_some_guid held g

abbrev pub matches : Criteria → Peer → Bool
matches c p =
    includes c.guids p.uuid
    && (in_groups c.within p.device_group_guid && has_strategy c.bound_to p.strategy_guid)

abbrev pub with_strategy : Option String → Peer → Peer
with_strategy v p = record {
  uuid = p.uuid;
  user_guid = p.user_guid;
  device_group_guid = p.device_group_guid;
  strategy_guid = v;
}

-- A reference to a deleted strategy is set to null.
abbrev pub detached : String → Option String → Option String
detached g none = none
detached g (some h) = if h == g then none else some h

abbrev pub over {ℓ κ} : {A : Type ℓ} {B : Type κ} → (A → B) → Option A → Option B
over f none = none
over f (some a) = some (f a)

abbrev pub detach_peer : String → Peer → Peer
detach_peer g p = with_strategy (detached g p.strategy_guid) p

abbrev pub detach : String → Holder → Holder
detach g h = record { guid = h.guid; strategy_guid = detached g h.strategy_guid }

abbrev pub is_found {ℓ} : {A : Type ℓ} → Option A → Bool
is_found none = false
is_found (some a) = true

pub record Store (D : Type 0) : Type 0 where
  -- The queries of the authorization service, on the same database.
  pub rbac : D → Database
  pub find_strategy : String → D → Option Strategy
  pub find_strategy_named : String → D → Option Strategy
  pub save_strategy : Strategy → D → Strategy × D
  pub remove_strategy : Strategy → D → D
  pub find_peer : String → D → Option Peer
  pub find_user : String → D → Option Holder
  pub find_group : String → D → Option Holder
  pub find_peers : List String → D → List Peer
  pub find_users : List String → D → List Holder
  pub find_groups : List String → D → List Holder
  -- `update` of the rows of a kind to a strategy: how many were affected.
  pub update : TargetType → Criteria → Option String → D → ℕ × D
  -- The database after a transaction from the first that throws at the second.
  pub rolled_back : D → D → D

pub record IsStore {D : Type 0} (db : Store D) : Type 0 where
  pub find_strategy-guid :
      (g : String) (d : D) (s : Strategy) → db.find_strategy g d ≡ some s → s.guid ≡ g
  pub save-guid : (s : Strategy) (d : D) → (db.save_strategy s d).0.guid ≡ s.guid
  pub find_strategy-save :
      (g : String) (s : Strategy) (d : D)
      → db.find_strategy g (db.save_strategy s d).1
        ≡ (if s.guid == g then some (db.save_strategy s d).0 else db.find_strategy g d)
  pub find_peer-save :
      (u : String) (s : Strategy) (d : D)
      → db.find_peer u (db.save_strategy s d).1 ≡ db.find_peer u d
  pub find_user-save :
      (u : String) (s : Strategy) (d : D)
      → db.find_user u (db.save_strategy s d).1 ≡ db.find_user u d
  pub find_group-save :
      (u : String) (s : Strategy) (d : D)
      → db.find_group u (db.save_strategy s d).1 ≡ db.find_group u d
  pub find_strategy-remove :
      (g : String) (s : Strategy) (d : D)
      → db.find_strategy g (db.remove_strategy s d)
        ≡ (if s.guid == g then none else db.find_strategy g d)
  pub find_peer-remove :
      (u : String) (s : Strategy) (d : D)
      → db.find_peer u (db.remove_strategy s d) ≡ over (detach_peer s.guid) (db.find_peer u d)
  pub find_user-remove :
      (u : String) (s : Strategy) (d : D)
      → db.find_user u (db.remove_strategy s d) ≡ over (detach s.guid) (db.find_user u d)
  pub find_group-remove :
      (u : String) (s : Strategy) (d : D)
      → db.find_group u (db.remove_strategy s d) ≡ over (detach s.guid) (db.find_group u d)
  pub find_strategy-update :
      (g : String) (t : TargetType) (c : Criteria) (v : Option String) (d : D)
      → db.find_strategy g (db.update t c v d).1 ≡ db.find_strategy g d
  pub find_peer-update :
      (u : String) (c : Criteria) (v : Option String) (d : D)
      → db.find_peer u (db.update device c v d).1
        ≡ over (λ p. if matches c p then with_strategy v p else p) (db.find_peer u d)
  -- If as many rows are affected as there are keys, each key is that of a row that matches.
  pub update-all :
      (c : Criteria) (v : Option String) (d : D)
      → (db.update device c v d).0 ≡ length c.guids
      → (u : String) → includes c.guids u ≡ true
      → (p : Peer) × (db.find_peer u d ≡ some p) × (matches c p ≡ true)
  pub find_peer-uuid : (u : String) (d : D) (p : Peer) → db.find_peer u d ≡ some p → p.uuid ≡ u
  pub find_peers-includes :
      (keys : List String) (d : D) (u : String)
      → includes (map (λ (p : Peer). p.uuid) (db.find_peers keys d)) u
        ≡ (includes keys u && is_found (db.find_peer u d))
  pub rolled_back-first : (d d' : D) → db.rolled_back d d' ≡ d
