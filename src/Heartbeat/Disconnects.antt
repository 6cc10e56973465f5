-- ===== src/Heartbeat/Disconnects.antt =====
-- modules/heartbeat/services/disconnect-store.service.ts: the connections that devices are asked to
-- close, until they no longer report them.
use rustdesk_console.Common.{
  ℕ, String, ◌≡◌, refl, sym, ap, ◌∙◌, Bool, true, false, not, ◌&&◌, ◌||◌, Option, none, some, List,
  [], ◌∷◌, ◌++◌, ◌==◌, string_eq, nat_eq, ==_iff, if◌then◌else◌, filter, includes, includes-append,
  includes-filter, lookup, put, lookup-put, arith, Bool-cases, inl, inr,
}

-- The pending connections by the device's uuid; a set is a list in the order of insertion.
abbrev pub Pending : Type 0
Pending = List (String × List ℕ)

-- `set.add` of each.
abbrev pub add_each : List ℕ → List ℕ → List ℕ
add_each set [] = set
add_each set (x ∷ xs) = add_each (if includes set x then set else set ++ (x ∷ [])) xs

abbrev pub is_none_left : List ℕ → Bool
is_none_left [] = true
is_none_left (x ∷ xs) = false

abbrev pub listed : Option (List ℕ) → List ℕ
listed none = []
listed (some ids) = ids

-- `map.delete`.
abbrev pub deleted : String → Pending → Pending
deleted uuid store = filter (λ e. not (e.0 == uuid)) store

unfoldable pub add_pending_disconnects : String → List ℕ → Pending → Pending
add_pending_disconnects uuid [] store = store
add_pending_disconnects uuid (x ∷ xs) store =
    put uuid (add_each (listed (lookup uuid store)) (x ∷ xs)) store

unfoldable pub get_pending_disconnects : String → Pending → List ℕ
get_pending_disconnects uuid store = listed (lookup uuid store)

-- The entry after the connections that are not reported any more are taken out.
abbrev pub kept_entry : String → List ℕ → Pending → Pending
kept_entry uuid [] store = deleted uuid store
kept_entry uuid (x ∷ xs) store = put uuid (x ∷ xs) store

abbrev pub without_closed : String → List ℕ → Option (List ℕ) → Pending → Pending
without_closed uuid reported none store = store
without_closed uuid reported (some pending) store =
    if is_none_left pending
    then store
    else kept_entry uuid (filter (includes reported) pending) store

unfoldable pub remove_disconnected : String → List ℕ → Pending → Pending
remove_disconnected uuid reported store = without_closed uuid reported (lookup uuid store) store

includes-add_each :
    (set xs : List ℕ) (c : ℕ) → includes (add_each set xs) c ≡ (includes set c || includes xs c)
includes-add_each set [] c = ground arith
includes-add_each set (x ∷ xs) c = elim (Bool-cases (includes set x)) [
  | inl there ↦ elim (Bool-cases (x == c)) [
    | inl same ↦
        let key = ap (includes set) ((==_iff x c).0 same) in
        ground (arith, includes-add_each set xs c)
    | inr other ↦ ground (arith, includes-add_each set xs c)
  ]
  | inr fresh ↦
      ground (arith, includes-add_each (set ++ (x ∷ [])) xs c, includes-append set (x ∷ []) c)
]

lookup-deleted :
    (k j : String) (store : Pending)
    → lookup j (deleted k store) ≡ (if k == j then none else lookup j store)
lookup-deleted k j [] = ground arith
lookup-deleted k j ((i, v) ∷ store) =
    ground (arith, lookup-deleted k j store, ==_iff i k, ==_iff i j, ==_iff k j)

-- After a request to close connections, a connection is listed for a device exactly if it was
-- before, or is asked for and the device is the one.
pub includes-add_pending_disconnects :
    (uuid u : String) (ids : List ℕ) (store : Pending) (c : ℕ)
    → includes (get_pending_disconnects u (add_pending_disconnects uuid ids store)) c
      ≡ (includes (get_pending_disconnects u store) c || ((uuid == u) && includes ids c))
unfolding add_pending_disconnects get_pending_disconnects
includes-add_pending_disconnects uuid u [] store c = ground arith
includes-add_pending_disconnects uuid u (x ∷ xs) store c = elim (Bool-cases (uuid == u)) [
  | inl same ↦
      let key = ap (λ k. lookup k store) ((==_iff uuid u).0 same) in
      ground (
        arith,
        lookup-put uuid u (add_each (listed (lookup uuid store)) (x ∷ xs)) store,
        includes-add_each (listed (lookup uuid store)) (x ∷ xs) c,
      )
  | inr other ↦
      ground (arith, lookup-put uuid u (add_each (listed (lookup uuid store)) (x ∷ xs)) store)
]

kept-includes :
    (uuid u : String) (ids : List ℕ) (store : Pending) (c : ℕ)
    → includes (listed (lookup u (kept_entry uuid ids store))) c
      ≡ (if uuid == u then includes ids c else includes (listed (lookup u store)) c)
kept-includes uuid u [] store c = ground (arith, lookup-deleted uuid u store)
kept-includes uuid u (x ∷ xs) store c = ground (arith, lookup-put uuid u (x ∷ xs) store)

without-includes :
    (uuid u : String) (reported : List ℕ) (o : Option (List ℕ)) (store : Pending) (c : ℕ)
    → lookup uuid store ≡ o
    → includes (listed (lookup u (without_closed uuid reported o store))) c
      ≡ (includes (listed (lookup u store)) c && (not (uuid == u) || includes reported c))
without-includes uuid u reported o store c e = elim (Bool-cases (uuid == u)) [
  | inl same ↦
      let here : lookup u store ≡ o = ap (λ k. lookup k store) (sym ((==_iff uuid u).0 same)) ∙ e in
      at_device o here same
  | inr other ↦ elsewhere o other
]
  where
    at_device :
        (o : Option (List ℕ))
        → lookup u store ≡ o
        → (uuid == u) ≡ true
        → includes (listed (lookup u (without_closed uuid reported o store))) c
          ≡ (includes (listed (lookup u store)) c && (not (uuid == u) || includes reported c))
    at_device none here same = ground arith
    at_device (some []) here same = ground arith
    at_device (some (x ∷ xs)) here same = ground (
      arith,
      kept-includes uuid u (filter (includes reported) (x ∷ xs)) store c,
      includes-filter (includes reported) (x ∷ xs) c,
    )

    elsewhere :
        (o : Option (List ℕ))
        → (uuid == u) ≡ false
        → includes (listed (lookup u (without_closed uuid reported o store))) c
          ≡ (includes (listed (lookup u store)) c && (not (uuid == u) || includes reported c))
    elsewhere none other = ground arith
    elsewhere (some []) other = ground arith
    elsewhere (some (x ∷ xs)) other =
        ground (arith, kept-includes uuid u (filter (includes reported) (x ∷ xs)) store c)

-- After a report of connections, a connection is listed for a device exactly if it was before and,
-- for the device that reports, is in the report.
pub includes-remove_disconnected :
    (uuid u : String) (reported : List ℕ) (store : Pending) (c : ℕ)
    → includes (get_pending_disconnects u (remove_disconnected uuid reported store)) c
      ≡ (includes (get_pending_disconnects u store) c && (not (uuid == u) || includes reported c))
unfolding remove_disconnected get_pending_disconnects
includes-remove_disconnected uuid u reported store c =
    without-includes uuid u reported (lookup uuid store) store c refl
