-- ===== src/Strategy/Tables.antt =====
-- A database of lists with one administrator, on which the strategies run in the tests, and that it
-- does what is asked of a database.
use rustdesk_console.Common.{
  ℕ, String, ◌≤◌, ◌≡◌, refl, ap, Bool, true, false, not, ◌&&◌, Option, none, some, List, [], ◌∷◌,
  map, ◌==◌, string_eq, nat_eq, ==_iff, if◌then◌else◌, filter, any, find?, includes, length, arith,
  find?-some, Bool-cases, Option-cases, inl, inr,
}
use rustdesk_console.Rbac.Protection.{TargetType, device, user, device_group}
use rustdesk_console.Rbac.Database.{Database, active}
use rustdesk_console.Strategy.Store.{
  Strategy, Peer, Holder, Store, IsStore, Criteria, matches, with_strategy, detach_peer, detach,
  over, is_found,
}

pub record Tables : Type 0 where
  pub strategies : List Strategy
  pub peers : List Peer
  pub users : List Holder
  pub groups : List Holder

abbrev query_one : {A : Type 0} → (A → String) → String → List A → Option A
query_one key k rows = find? (λ r. key r == k) rows

abbrev query : {A : Type 0} → (A → String) → List String → List A → List A
query key keys rows = filter (λ r. includes keys (key r)) rows

module _ {A : Type 0} (key : A → String) where
  query_one-map :
      (f : A → A) (k : String) (rows : List A)
      → ((a : A) → key (f a) ≡ key a)
      → query_one key k (map f rows) ≡ over f (query_one key k rows)
  query_one-map f k [] h = refl
  query_one-map f k (r ∷ rs) h = ground (arith, h r, query_one-map f k rs h)

  query_one-filter :
      (j k : String) (rows : List A)
      → query_one key k (filter (λ r. not (key r == j)) rows)
        ≡ (if j == k then none else query_one key k rows)
  query_one-filter j k [] = ground arith
  query_one-filter j k (r ∷ rs) =
      ground (arith, query_one-filter j k rs, ==_iff (key r) j, ==_iff (key r) k, ==_iff j k)

  query_one-key : (k : String) (rows : List A) (a : A) → query_one key k rows ≡ some a → key a ≡ k
  query_one-key k rows a h = (==_iff (key a) k).0 (find?-some (λ r. key r == k) rows a h)

  found-any :
      (k : String) (rows : List A) → is_found (query_one key k rows) ≡ any (λ r. key r == k) rows
  found-any k [] = refl
  found-any k (r ∷ rs) = ground (arith, found-any k rs)

  query-includes :
      (keys : List String) (k : String) (rows : List A)
      → includes (map key (query key keys rows)) k
        ≡ (includes keys k && is_found (query_one key k rows))
  query-includes keys k [] = ground arith
  query-includes keys k (r ∷ rs) = elim (Bool-cases (key r == k)) [
    | inl same ↦
        let at = ap (includes keys) ((==_iff (key r) k).0 same) in
        ground (arith, query-includes keys k rs)
    | inr other ↦ ground (arith, query-includes keys k rs)
  ]

-- How many of the keys are those of rows that match.
abbrev count : (String → Bool) → List String → ℕ
count p keys = length (filter p keys)

count_bound : (p : String → Bool) (keys : List String) → length (filter p keys) ≤ length keys
count_bound p [] = ground arith
count_bound p (k ∷ ks) = ground (arith, count_bound p ks)

count-all :
    (p : String → Bool) (keys : List String) (k : String)
    → length (filter p keys) ≡ length keys
    → includes keys k ≡ true
    → p k ≡ true
count-all p [] k h e = ground arith
count-all p (j ∷ ks) k h e = elim (Bool-cases (j == k)) [
  | inl same ↦ let key = (==_iff j k).0 same in ground (arith, count_bound p ks, ap p key)
  | inr other ↦ ground (arith, count_bound p ks, count-all p ks k)
]

-- The database, with one administrator.
abbrev accounts : Database
accounts = record {
  find_user = λ g.
      if g == "root"
      then some (record { guid = "root"; status = active; is_admin = true })
      else none;
  find_users = λ keys. [];
  find_assignments = λ keys. [];
  find_role_permissions = λ keys. [];
  find_assignment_groups = λ keys. [];
  find_roles = λ keys. [];
  find_protected_roles = λ keys. [];
  find_peer = λ g. none;
  find_peers = λ keys. [];
  find_device_groups = λ keys. [];
}

abbrev pub with_strategies : List Strategy → Tables → Tables
with_strategies s t = record { strategies = s; peers = t.peers; users = t.users; groups = t.groups }

abbrev pub with_peers : List Peer → Tables → Tables
with_peers p t = record { strategies = t.strategies; peers = p; users = t.users; groups = t.groups }

abbrev others : String → List Strategy → List Strategy
others g l = filter (λ s. not (s.guid == g)) l

-- Is the key that of a device that matches?
abbrev hits : Criteria → List Peer → String → Bool
hits c peers k = matched (query_one (λ p. p.uuid) k peers)
  where
    matched : Option Peer → Bool
    matched none = false
    matched (some p) = matches c p

abbrev set_peers : Criteria → Option String → List Peer → List Peer
set_peers c v peers = map (λ p. if matches c p then with_strategy v p else p) peers

abbrev update_tables : TargetType → Criteria → Option String → Tables → ℕ × Tables
update_tables device c v t = (count (hits c t.peers) c.guids, with_peers (set_peers c v t.peers) t)
update_tables _ c v t = (0, t)

abbrev pub store : Store Tables
store = record {
  rbac = λ t. accounts;
  find_strategy = λ g t. query_one (λ s. s.guid) g t.strategies;
  find_strategy_named = λ n t. query_one (λ s. s.name) n t.strategies;
  save_strategy = λ s t. (s, with_strategies (s ∷ others s.guid t.strategies) t);
  remove_strategy = λ s t. record {
    strategies = others s.guid t.strategies;
    peers = map (detach_peer s.guid) t.peers;
    users = map (detach s.guid) t.users;
    groups = map (detach s.guid) t.groups;
  };
  find_peer = λ u t. query_one (λ p. p.uuid) u t.peers;
  find_user = λ u t. query_one (λ h. h.guid) u t.users;
  find_group = λ u t. query_one (λ h. h.guid) u t.groups;
  find_peers = λ keys t. query (λ p. p.uuid) keys t.peers;
  find_users = λ keys t. query (λ h. h.guid) keys t.users;
  find_groups = λ keys t. query (λ h. h.guid) keys t.groups;
  update = update_tables;
  rolled_back = λ d d'. d;
}

set-uuid :
    (c : Criteria) (v : Option String) (p : Peer)
    → (if matches c p then with_strategy v p else p).uuid ≡ p.uuid
set-uuid c v p = ground arith

store-update :
    (g : String) (t : TargetType) (c : Criteria) (v : Option String) (d : Tables)
    → store.find_strategy g (store.update t c v d).1 ≡ store.find_strategy g d
store-update g device c v d = refl
store-update g user c v d = refl
store-update g device_group c v d = refl

hits-found :
    (c : Criteria) (peers : List Peer) (k : String)
    → hits c peers k ≡ true
    → (p : Peer) × (query_one (λ p. p.uuid) k peers ≡ some p) × (matches c p ≡ true)
hits-found c peers k h = elim (Option-cases (query_one (λ (p : Peer). p.uuid) k peers)) [
  | inl none_found ↦ ground arith
  | inr (p, e) ↦ (p, e, ground arith)
]

pub store-IsStore : IsStore store
store-IsStore = record {
  find_strategy-guid = λ g d s h. query_one-key (λ (s : Strategy). s.guid) g d.strategies s h;
  save-guid = λ s d. refl;
  find_strategy-save =
      λ g s d. ground (arith, query_one-filter (λ (s : Strategy). s.guid) s.guid g d.strategies);
  find_peer-save = λ u s d. refl;
  find_user-save = λ u s d. refl;
  find_group-save = λ u s d. refl;
  find_strategy-remove = λ g s d. query_one-filter (λ (s : Strategy). s.guid) s.guid g d.strategies;
  find_peer-remove =
      λ u s d. query_one-map (λ (p : Peer). p.uuid) (detach_peer s.guid) u d.peers (λ p. refl);
  find_user-remove =
      λ u s d. query_one-map (λ (h : Holder). h.guid) (detach s.guid) u d.users (λ h. refl);
  find_group-remove =
      λ u s d. query_one-map (λ (h : Holder). h.guid) (detach s.guid) u d.groups (λ h. refl);
  find_strategy-update = store-update;
  find_peer-update = λ u c v d.
      query_one-map (λ (p : Peer). p.uuid) (λ p. if matches c p then with_strategy v p else p) u
        d.peers (set-uuid c v);
  update-all = λ c v d h u e. hits-found c d.peers u (count-all (hits c d.peers) c.guids u h e);
  find_peer-uuid = λ u d p h. query_one-key (λ (p : Peer). p.uuid) u d.peers p h;
  find_peers-includes = λ keys d u. query-includes (λ (p : Peer). p.uuid) keys u d.peers;
  rolled_back-first = λ d d'. refl;
}
