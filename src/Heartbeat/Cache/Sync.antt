-- ===== src/Heartbeat/Cache/Sync.antt =====
-- The synchronisation of a device's connections, and of all devices in a snapshot.
use rustdesk_console.Common.{
  and-true, ==_comm, ℕ, String, ◌≡◌, refl, ap, inl, inr, Bool, true, not, ◌&&◌, ◌||◌, List, [], ◌∷◌,
  ◌++◌, map, ◌==◌, string_eq, nat_eq, ==_iff, if◌then◌else◌, filter, any, includes, arith,
  Bool-cases, includes-filter,
}
use rustdesk_console.Heartbeat.Cache.{conns_of, sync_connections}

-- Is the connection stored for the device?
abbrev pub holds : String → ℕ → List (String × ℕ) → Bool
holds uuid id rows = any (λ r. (r.0 == uuid) && (r.1 == id)) rows

pub includes-conns_of :
    (uuid : String) (id : ℕ) (rows : List (String × ℕ))
    → includes (conns_of uuid rows) id ≡ holds uuid id rows
includes-conns_of uuid id [] = refl
includes-conns_of uuid id ((u, n) ∷ rows) = ground (arith, includes-conns_of uuid id rows)

holds-append :
    (uuid : String) (id : ℕ) (xs ys : List (String × ℕ))
    → holds uuid id (xs ++ ys) ≡ (holds uuid id xs || holds uuid id ys)
holds-append uuid id [] ys = refl
holds-append uuid id (x ∷ xs) ys = ground (arith, holds-append uuid id xs ys)

holds-added :
    (device uuid : String) (id : ℕ) (ids : List ℕ)
    → holds uuid id (map (λ n. (device, n)) ids) ≡ ((device == uuid) && includes ids id)
holds-added device uuid id [] = ground arith
holds-added device uuid id (n ∷ ids) = ground (arith, holds-added device uuid id ids)

holds-kept :
    (device uuid : String) (id : ℕ) (removed : List ℕ) (rows : List (String × ℕ))
    → holds uuid id (filter (λ r. not ((r.0 == device) && includes removed r.1)) rows)
      ≡ (holds uuid id rows && not ((device == uuid) && includes removed id))
holds-kept device uuid id removed [] = refl
holds-kept device uuid id removed ((u, n) ∷ rows) = elim (Bool-cases ((u == uuid) && (n == id))) [
  | inl hit ↦
      let (left, right) = and-true _ _ hit in
      let device_same = (==_iff u uuid).0 left in
      let id_same = (==_iff n id).0 right in
      ground (
        arith,
        holds-kept device uuid id removed rows,
        ap (λ x. x == device) device_same,
        ap (includes removed) id_same,
        ==_comm device uuid,
      )
  | inr other ↦ ground (arith, holds-kept device uuid id removed rows)
]

-- After the synchronisation of a device, exactly the reported connections are stored for it, and
-- those of every other device are as before.
pub holds-sync_connections :
    (device : String) (reported : List ℕ) (rows : List (String × ℕ)) (uuid : String) (id : ℕ)
    → holds uuid id (sync_connections device reported rows)
      ≡ (if device == uuid then includes reported id else holds uuid id rows)
unfolding sync_connections
holds-sync_connections device reported rows uuid id =
    let existing = conns_of device rows in
    let to_remove = filter (λ n. not (includes reported n)) existing in
    let to_add = filter (λ n. not (includes existing n)) reported in
    ground (
      arith,
      holds-append uuid id
          (filter (λ (r : String × ℕ). not ((r.0 == device) && includes to_remove r.1)) rows)
          (map (λ n. (device, n)) to_add),
      holds-kept device uuid id to_remove rows,
      holds-added device uuid id to_add,
      includes-filter (λ n. not (includes reported n)) existing id,
      includes-filter (λ n. not (includes existing n)) reported id,
      includes-conns_of device id rows,
      ==_iff device uuid,
      same_device,
    )
  where
    same_device : (device == uuid) ≡ true → holds device id rows ≡ holds uuid id rows
    same_device h = ap (λ u. holds u id rows) ((==_iff device uuid).0 h)
