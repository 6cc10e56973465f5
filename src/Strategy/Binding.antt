-- ===== src/Strategy/Binding.antt =====
-- modules/auth/services/auth-device.service.ts and common/utils/device-identity.util.ts: binding a
-- device to the user who logs in on it, and what the strategy lookup makes of that.
use rustdesk_console.Common.{
  String, ◌≡◌, refl, ap, ◌∙◌, Bool, true, false, not, ◌&&◌, ◌||◌, Option, none, some, string_eq,
  if◌then◌else◌, arith, Option-cases, inl, inr,
}
use rustdesk_console.Rbac.Authorization.{truthy}
use rustdesk_console.Strategy.Store.{Peer, Store, is_found, is_some_guid}
use rustdesk_console.Strategy.Resolution.{Service, find_strategy_for_peer, from_cache, from_object}
use rustdesk_console.Strategy.Changes.{with_rows}

-- The peers, as far as a login uses them: `id` of a row, and `update` of its user. The identifier of
-- an isolated device is a digest, which a library computes.
pub record Devices (D : Type 0) : Type 0 where
  pub device_id : String → D → Option String
  pub set_user : String → Option String → D → D
  pub isolated_device_uuid : String → String → String

abbrev pub or_blank : Option String → String
or_blank none = ""
or_blank (some s) = s

module _ {D : Type 0} (db : Store D) (devices : Devices D) where
  unfoldable pub resolve_device_uuid : String → String → Bool → D → String
  resolve_device_uuid uuid id enabled d =
      let isolated = devices.isolated_device_uuid uuid id in
      if not enabled
      then uuid
      else if is_found (db.find_peer isolated d)
      then isolated
      else if is_some_guid (devices.device_id uuid d) id
      then uuid
      else isolated

  -- The device that a login names, if an identifier is given.
  abbrev pub named_device : Option String → String → Bool → D → String
  named_device id uuid clone_isolation d =
      if truthy id then resolve_device_uuid uuid (or_blank id) clone_isolation d else uuid

  abbrev pub bound : String → Option String → Service D → Service D
  bound uuid user_guid w = with_rows (devices.set_user uuid user_guid w.rows) w

  abbrev pub bind_named : String → String → Service D → Service D
  bind_named user_guid uuid w =
      if is_found (db.find_peer uuid w.rows) then bound uuid (some user_guid) w else w

  unfoldable pub create_or_update_device :
      String → Option String → Option String → Bool → Service D → Service D
  create_or_update_device user_guid device_id device_uuid clone_isolation w =
      if not (truthy device_uuid) || (clone_isolation && not (truthy device_id))
      then w
      else bind_named user_guid
          (named_device device_id (or_blank device_uuid) clone_isolation w.rows) w

  abbrev pub is_bound_to : Option Peer → String → Bool
  is_bound_to none user_guid = false
  is_bound_to (some p) user_guid = is_some_guid p.user_guid user_guid

  abbrev pub unbind_named : String → String → Service D → Service D
  unbind_named user_guid uuid w =
      if is_bound_to (db.find_peer uuid w.rows) user_guid then bound uuid none w else w

  unfoldable pub unbind_device : String → String → Option String → Bool → Service D → Service D
  unbind_device user_guid device_uuid device_id clone_isolation w =
      if clone_isolation && not (truthy device_id)
      then w
      else unbind_named user_guid (named_device device_id device_uuid clone_isolation w.rows) w

  -- Is the lookup of the device answered from the caches?
  abbrev pub is_answered : Option (Option String) → Service D → Bool
  is_answered none w = false
  is_answered (some none) w = true
  is_answered (some (some g)) w = is_found (w.strategy_object_cache g)

  abbrev pub is_cached : String → Service D → Bool
  is_cached uuid w = is_answered (w.device_strategy_cache uuid) w

  object_answer :
      (g : String) (p q : Peer) (w : Service D) (d : D)
      → is_found (w.strategy_object_cache g) ≡ true
      → (from_object db (w.strategy_object_cache g) q (with_rows d w)).0
        ≡ (from_object db (w.strategy_object_cache g) p w).0
  object_answer g p q w d h = elim (Option-cases (w.strategy_object_cache g)) [
    | inl missing ↦ ground arith
    | inr (s, e) ↦ rw e refl
  ]

  cached_answer :
      (c : Option (Option String)) (p q : Peer) (w : Service D) (d : D)
      → is_answered c w ≡ true
      → (from_cache db c q (with_rows d w)).0 ≡ (from_cache db c p w).0
  cached_answer none p q w d h = ground arith
  cached_answer (some none) p q w d h = refl
  cached_answer (some (some g)) p q w d h = object_answer g p q w d h

  abbrev SameAnswer : Peer → Peer → Service D → Service D → Type 0
  SameAnswer p q w v = (find_strategy_for_peer db q v).0 ≡ (find_strategy_for_peer db p w).0

  same_rows :
      (p q : Peer) (w : Service D) (d : D)
      → is_cached p.uuid w ≡ true
      → q.uuid ≡ p.uuid
      → SameAnswer p q w (with_rows d w)
  unfolding find_strategy_for_peer
  same_rows p q w d h e =
      ap (λ k. (from_cache db (w.device_strategy_cache k) q (with_rows d w)).0) e
      ∙ cached_answer (w.device_strategy_cache p.uuid) p q w d h

  same_after :
      (b : Bool) (p q : Peer) (w v : Service D)
      → SameAnswer p q w v
      → SameAnswer p q w w
      → SameAnswer p q w (if b then v else w)
  same_after true p q w v x y = x
  same_after false p q w v x y = y

  either :
      (b : Bool) (p q : Peer) (w v : Service D)
      → SameAnswer p q w w
      → SameAnswer p q w v
      → SameAnswer p q w (if b then w else v)
  either true p q w v x y = x
  either false p q w v x y = y

  -- If the lookup of a device is answered from the caches, then after a login on any device the
  -- lookup for it with whatever row is stored then, of another user or not, returns the same
  -- strategy as before: a login does not reach the caches.
  pub create_or_update_device-find_strategy_for_peer :
      (user_guid : String) (device_id device_uuid : Option String) (clone_isolation : Bool)
      (w : Service D) (p q : Peer)
      → is_cached p.uuid w ≡ true
      → q.uuid ≡ p.uuid
      → (find_strategy_for_peer db q
          (create_or_update_device user_guid device_id device_uuid clone_isolation w)).0
        ≡ (find_strategy_for_peer db p w).0
  unfolding create_or_update_device
  create_or_update_device-find_strategy_for_peer user_guid id uuid clone w p q h e =
      let skipped = not (truthy uuid) || (clone && not (truthy id)) in
      let named = named_device id (or_blank uuid) clone w.rows in
      let kept = same_rows p q w w.rows h e in
      either skipped p q w (bind_named user_guid named w) kept (
        same_after (is_found (db.find_peer named w.rows)) p q w (bound named (some user_guid) w)
          (same_rows p q w (devices.set_user named (some user_guid) w.rows) h e) kept)
