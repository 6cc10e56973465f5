-- ===== src/Heartbeat/Connections.antt =====
-- modules/heartbeat/heartbeat.service.ts: the active connections of a device.
use rustdesk_console.Common.{
  ℕ, String, ◌≡◌, ap, ◌∙◌, subst, inl, inr, Option, none, some, List, string_eq, nat_eq, includes,
}
use rustdesk_console.Heartbeat.Cache.{Cache, get_buffered_conns, conns_of}
use rustdesk_console.Heartbeat.Cache.Sync.{includes-conns_of}
use rustdesk_console.Heartbeat.Cache.Delivery.{
  Event, handle_all, latest_of, IsDelivered, IsValid, handle_all-IsValid,
}

-- `if (buffered !== undefined) return buffered`.
abbrev pub or_stored : Option (List ℕ) → List ℕ → List ℕ
or_stored none stored = stored
or_stored (some conns) stored = conns

unfoldable pub get_active_connection_ids : String → Cache → List ℕ
get_active_connection_ids uuid c =
    or_stored (get_buffered_conns uuid c) (conns_of uuid c.rows.connections)

delivered-read :
    (uuid : String) (conns : List ℕ) (buffered : Option (List ℕ)) (stored : List (String × ℕ))
    (id : ℕ)
    → IsDelivered uuid (some conns) buffered stored
    → includes (or_stored buffered (conns_of uuid stored)) id ≡ includes conns id
delivered-read uuid conns buffered stored id (inl e) =
    ap (λ o. includes (or_stored o (conns_of uuid stored)) id) e
delivered-read uuid conns buffered stored id (inr (e, same)) =
    ap (λ o. includes (or_stored o (conns_of uuid stored)) id) e
    ∙ includes-conns_of uuid id stored
    ∙ same id

read_report :
    (uuid : String) (c : Cache) (report : Option (List ℕ)) (conns : List ℕ) (id : ℕ)
    → report ≡ some conns
    → IsValid uuid report c
    → includes (get_active_connection_ids uuid c) id ≡ includes conns id
unfolding get_active_connection_ids
read_report uuid c report conns id e v =
    delivered-read uuid conns (get_buffered_conns uuid c) c.rows.connections id
      (subst (λ r. IsDelivered uuid r (get_buffered_conns uuid c) c.rows.connections) e v.delivered)

-- The active connections of a registered device are exactly those of its last report, however the
-- heartbeats and the starts, commits and failures of flushes followed each other since a state in
-- which the last report was buffered or stored.
pub get_active_connection_ids-latest :
    (uuid : String) (es : List Event) (report : Option (List ℕ)) (c : Cache) (conns : List ℕ)
    (id : ℕ)
    → IsValid uuid report c
    → latest_of uuid es report ≡ some conns
    → includes (get_active_connection_ids uuid (handle_all es c)) id ≡ includes conns id
get_active_connection_ids-latest uuid es report c conns id v e =
    read_report uuid (handle_all es c) (latest_of uuid es report) conns id e
      (handle_all-IsValid uuid es report c v)
