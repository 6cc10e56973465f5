-- ===== src/WebClient/Tests.antt =====
-- Messages of the handshake, and the theorems on them.
use rustdesk_console.Common.Chars.{split}
use rustdesk_console.WebClient.Protocol.Granted.{
  GrantsPunchHole, GrantsRelay, validate_punch_hole_request-grants, validate_request_relay-grants,
  read_rendezvous_reply-uuid,
}
use rustdesk_console.Common.{
  String, Option, ℕ, List, true, ◌≡◌, ◌≢◌, refl, none, some, [], ◌∷◌, ◌++◌, arith,
}
use rustdesk_console.Common.Effects.{ok, err}
use rustdesk_console.Common.Results.{◌>>=◌}
use rustdesk_console.WebClient.Protocol.{
  ProtocolBinding, validate_request_relay, read_rendezvous_reply, read_relay, relay_to,
  read_refusal, is_relay_uuid, read_from, read_varint, out_of_fuel, fields, fields_from, read_field,
  read_value, envelope, punch_hole_schema, validate_punch_hole_request, desktop,
}
use rustdesk_console.WebClient.Protocol.Varint.{encode, read_varint-encode}
use rustdesk_console.WebClient.Protocol.Fields.{fields-ends}

read_varint-encode_example : read_varint (encode 300 ++ (7 ∷ [])) ≡ some (300, 7 ∷ [])
read_varint-encode_example = read_varint-encode 300 (7 ∷ []) (omega arith)

fields-ends_example : fields (32 ∷ 1 ∷ 64 ∷ 1 ∷ []) punch_hole_schema ≢ err out_of_fuel
fields-ends_example = fields-ends (32 ∷ 1 ∷ 64 ∷ 1 ∷ []) punch_hole_schema

abbrev binding : ProtocolBinding
binding = record { target_id = "t"; kind = desktop; server_public_key = "t"; relay_uuid = some "t" }

abbrev decode : List ℕ → Option String
decode b = some "t"

pub opened : Unit {0}
unfolding validate_punch_hole_request validate_request_relay read_rendezvous_reply read_relay
    relay_to read_refusal is_relay_uuid split envelope fields fields_from read_field read_value
    read_varint read_from ◌>>=◌
opened = tt

-- The target, the key and that a relay is forced.
abbrev punch_hole_request : List ℕ
punch_hole_request = 66 ∷ 8 ∷ 10 ∷ 1 ∷ 116 ∷ 26 ∷ 1 ∷ 116 ∷ 64 ∷ 1 ∷ []

-- The target, the relay and the key.
abbrev relay_request : List ℕ
relay_request = 146 ∷ 1 ∷ 9 ∷ 10 ∷ 1 ∷ 116 ∷ 18 ∷ 1 ∷ 116 ∷ 50 ∷ 1 ∷ 116 ∷ []

validate_punch_hole_request-grants_example : GrantsPunchHole decode punch_hole_request binding
unfolding opened
validate_punch_hole_request-grants_example =
    validate_punch_hole_request-grants decode punch_hole_request binding refl

validate_request_relay-grants_example : GrantsRelay decode relay_request binding
unfolding opened
validate_request_relay-grants_example =
    validate_request_relay-grants decode relay_request binding refl

read_rendezvous_reply-uuid_example : is_relay_uuid "33333333-3333-4333-8333-333333333333" ≡ true
unfolding opened
read_rendezvous_reply-uuid_example =
    read_rendezvous_reply-uuid (λ b. some "33333333-3333-4333-8333-333333333333")
      (154 ∷ 1 ∷ 3 ∷ 18 ∷ 1 ∷ 65 ∷ []) "33333333-3333-4333-8333-333333333333" refl

-- A request that leaves out the target and the key is accepted only for a binding without them.
punch_hole_test :
    validate_punch_hole_request
      (λ b. some "")
      (66 ∷ 2 ∷ 64 ∷ 1 ∷ [])
      (record { target_id = ""; kind = desktop; server_public_key = ""; relay_uuid = none })
    ≡ ok tt
unfolding validate_punch_hole_request envelope fields fields_from read_field read_value read_varint
    read_from ◌>>=◌
punch_hole_test = refl
