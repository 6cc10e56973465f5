-- ===== src/WebClient/Protocol/Granted.antt =====
-- What a message says that is let through: only what the session was granted.
use rustdesk_console.Common.{
  ℕ, String, ◌≡◌, refl, ◌∙◌, ap, Bool, true, false, not, Option, List, [], ◌∷◌, ◌==◌, nat_eq,
  string_eq, ==_iff, if◌then◌else◌,
}
use rustdesk_console.Common.Effects.{Result, ok}
use rustdesk_console.Common.Results.{bind-ok}
use rustdesk_console.WebClient.Protocol.{
  Stop, Values, fields, string, number_at, envelope, refuse_if, ProtocolBinding, kind_number,
  punch_hole_schema, request_relay_schema, validate_punch_hole_request, validate_request_relay,
  or_blank, RendezvousReply, relay, read_rendezvous_reply, read_refusal, read_relay, relay_to,
  refused_or, is_relay_uuid, is_nonempty_text,
}

passes : (b : Bool) (a : Unit {0}) → refuse_if (not b) ≡ ok a → b ≡ true
passes true a h = refl
passes false a h = cc

-- The fields of a punch hole request are those of the session, and it asks for a relay.
abbrev pub GrantsPunchHole : (List ℕ → Option String) → List ℕ → ProtocolBinding → Type 0
GrantsPunchHole decode buffer binding =
    (body : ℕ × List ℕ) × (values : Values) × (envelope buffer (8 ∷ []) ≡ ok body)
    × (fields body.1 punch_hole_schema ≡ ok values)
    × (string decode values 1 ≡ ok binding.target_id)
    × (string decode values 3 ≡ ok binding.server_public_key)
    × (number_at values 4 ≡ ok (kind_number binding.kind))
    × (number_at values 8 ≡ ok 1)

-- The fields of a relay request are those of the session, which has a relay.
abbrev pub GrantsRelay : (List ℕ → Option String) → List ℕ → ProtocolBinding → Type 0
GrantsRelay decode buffer binding =
    (body : ℕ × List ℕ) × (values : Values) × (envelope buffer (18 ∷ []) ≡ ok body)
    × (fields body.1 request_relay_schema ≡ ok values)
    × (is_nonempty_text binding.relay_uuid ≡ true)
    × (string decode values 1 ≡ ok binding.target_id)
    × (string decode values 2 ≡ ok (or_blank binding.relay_uuid))
    × (string decode values 6 ≡ ok binding.server_public_key)
    × (number_at values 7 ≡ ok (kind_number binding.kind))

module _ (decode : List ℕ → Option String) where
  reads :
      (r : Result Stop String) (s t : String) (a : Unit {0})
      → r ≡ ok s
      → refuse_if (not (s == t)) ≡ ok a
      → r ≡ ok t
  reads r s t a e h = e ∙ ap ok ((==_iff s t).0 (passes (s == t) a h))

  counts :
      (r : Result Stop ℕ) (n m : ℕ) (a : Unit {0})
      → r ≡ ok n
      → refuse_if (not (n == m)) ≡ ok a
      → r ≡ ok m
  counts r n m a e h = e ∙ ap ok ((==_iff n m).0 (passes (n == m) a h))

  -- If a punch hole request is let through, the fields of its body name the target, the key and the
  -- kind that the session was granted, and ask that a relay is forced.
  pub validate_punch_hole_request-grants :
      (buffer : List ℕ) (binding : ProtocolBinding)
      → validate_punch_hole_request decode buffer binding ≡ ok tt
      → GrantsPunchHole decode buffer binding
  unfolding validate_punch_hole_request
  validate_punch_hole_request-grants buffer binding h =
      let (body, e0, h0) = bind-ok h in
      let (values, e1, h1) = bind-ok h0 in
      let (target, e2, h2) = bind-ok h1 in
      let (_, p2, h3) = bind-ok h2 in
      let (key, e3, h4) = bind-ok h3 in
      let (_, p3, h5) = bind-ok h4 in
      let (kind, e4, h6) = bind-ok h5 in
      let (_, p4, h7) = bind-ok h6 in
      let (force_relay, e5, h8) = bind-ok h7 in
      let (_, p5, h9) = bind-ok h8 in
      (
        body,
        values,
        e0,
        e1,
        reads _ target binding.target_id _ e2 p2,
        reads _ key binding.server_public_key _ e3 p3,
        counts _ kind (kind_number binding.kind) _ e4 p4,
        counts _ force_relay 1 _ e5 p5,
      )

  -- If a relay request is let through, the session has a relay, and the fields of its body name the
  -- target, the relay, the key and the kind that the session was granted.
  pub validate_request_relay-grants :
      (buffer : List ℕ) (binding : ProtocolBinding)
      → validate_request_relay decode buffer binding ≡ ok tt
      → GrantsRelay decode buffer binding
  unfolding validate_request_relay
  validate_request_relay-grants buffer binding h =
      let (body, e0, h0) = bind-ok h in
      let (values, e1, h1) = bind-ok h0 in
      let (_, p1, h2) = bind-ok h1 in
      let (target, e2, h3) = bind-ok h2 in
      let (_, p2, h4) = bind-ok h3 in
      let (uuid, e3, h5) = bind-ok h4 in
      let (_, p3, h6) = bind-ok h5 in
      let (key, e4, h7) = bind-ok h6 in
      let (_, p4, h8) = bind-ok h7 in
      let (kind, e5, h9) = bind-ok h8 in
      (
        body,
        values,
        e0,
        e1,
        passes (is_nonempty_text binding.relay_uuid) _ p1,
        reads _ target binding.target_id _ e2 p2,
        reads _ uuid (or_blank binding.relay_uuid) _ e3 p3,
        reads _ key binding.server_public_key _ e4 p4,
        counts _ kind (kind_number binding.kind) _ e5 h9,
      )

  relay_to-uuid :
      (values : Values) (u : String)
      → relay_to decode values ≡ ok (relay u)
      → is_relay_uuid u ≡ true
  unfolding relay_to
  relay_to-uuid values u h =
      let (uuid, e, h1) = bind-ok h in
      let (_, p, h2) = bind-ok h1 in let valid = passes (is_relay_uuid uuid) _ p in cc (valid, h2)

  read_refusal-refuses : (body : List ℕ) (u : String) → read_refusal decode body ≡ ok (relay u) → ⊥
  unfolding read_refusal
  read_refusal-refuses body u h =
      let (values, _, h1) = bind-ok h in
      let (_, _, h2) = bind-ok h1 in
      let (_, _, h3) = bind-ok h2 in
      let (_, _, h4) = bind-ok h3 in let (_, _, h5) = bind-ok h4 in cc h5

  refused_or-relay :
      (b : Bool) (rest : Result Stop RendezvousReply) (u : String)
      → refused_or decode b rest ≡ ok (relay u)
      → rest ≡ ok (relay u)
  refused_or-relay true rest u h = cc
  refused_or-relay false rest u h = h

  read_relay-uuid :
      (body : List ℕ) (u : String) → read_relay decode body ≡ ok (relay u) → is_relay_uuid u ≡ true
  unfolding read_relay
  read_relay-uuid body u h =
      let (values, _, h1) = bind-ok h in
      let (_, _, h2) = bind-ok h1 in
      let (_, _, h3) = bind-ok h2 in
      let (_, _, h4) = bind-ok h3 in
      let (refusal, _, h5) = bind-ok h4 in
      let (_, _, h6) = bind-ok h5 in
      relay_to-uuid values u (refused_or-relay (not (refusal == "")) (relay_to decode values) u h6)

  chosen :
      (b : Bool) (body : List ℕ) (u : String)
      → (if b then read_refusal decode body else read_relay decode body) ≡ ok (relay u)
      → is_relay_uuid u ≡ true
  chosen true body u h = absurd (read_refusal-refuses body u h)
  chosen false body u h = read_relay-uuid body u h

  -- If the reply of a rendezvous server is taken as a relay, its identifier has the form of a UUID.
  pub read_rendezvous_reply-uuid :
      (buffer : List ℕ) (u : String)
      → read_rendezvous_reply decode buffer ≡ ok (relay u)
      → is_relay_uuid u ≡ true
  unfolding read_rendezvous_reply
  read_rendezvous_reply-uuid buffer u h =
      let (body, _, h1) = bind-ok h in chosen (body.0 == 11) body.1 u h1
