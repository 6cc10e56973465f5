-- ===== src/WebClient/Protocol.antt =====
-- modules/web-client/web-client-protocol.ts: the decoder of the handshake. A buffer is the list of its
-- bytes, the cursor is what is left of them, and `TextDecoder.decode` is a parameter.
-- Whatever is thrown is `invalid`.
pub mod Varint
pub mod Fields
pub mod Granted
use Prim.Native.String
use rustdesk_console.Common.{
  ℕ, zero, suc, ◌+◌, ◌-◌, ◌*◌, ◌/◌, ◌%◌, ◌^◌, String, Bool, true, false, not, ◌&&◌, ◌||◌, Option,
  none, some, List, [], ◌∷◌, ◌++◌, ◌==◌, nat_eq, string_eq, if◌then◌else◌, ltb, leb, length, lookup,
  any, all, includes, map,
}
use rustdesk_console.Common.Chars.{codes, between, is_digit, split}
use rustdesk_console.Common.Effects.{Result, ok, err}
use rustdesk_console.Common.Results.{◌>>=◌, ◌>>◌}

-- `invalid()`, and the end of the fuel, which is never met.
pub data Stop : Type 0 where
  invalid out_of_fuel : Stop

-- The byte at index `i` of a number, whose lower digits make up `value`; `left` bytes may follow.
unfoldable pub read_from : ℕ → ℕ → ℕ → List ℕ → Option (ℕ × List ℕ)
read_from zero i value bytes = none
read_from (suc left) i value [] = none
read_from (suc left) i value (byte ∷ rest) =
    let sum = value + (byte % 128) * 2 ^ (7 * i) in
    let next = read_from left (i + 1) sum rest in
    if (i == 4) && ltb 15 byte
    then none
    else if leb 128 byte
    then next
    else if ltb 0 i && (byte == 0)
    then none
    else some (sum, rest)

unfoldable pub read_varint : List ℕ → Option (ℕ × List ℕ)
read_varint bytes = read_from 5 0 0 bytes

pub data Wire : Type 0 where
  number_wire bytes_wire : Wire

pub record Field : Type 0 where
  pub wire : Wire
  pub max : Option ℕ

abbrev pub Schema : Type 0
Schema = List (ℕ × Field)

pub data WireValue : Type 0 where
  number : ℕ → WireValue
  bytes : List ℕ → WireValue

abbrev pub Values : Type 0
Values = List (ℕ × WireValue)

abbrev pub max_handshake_bytes : ℕ
max_handshake_bytes = 16384

abbrev pub wire_number : Wire → ℕ
wire_number number_wire = 0
wire_number bytes_wire = 2

abbrev pub has : ℕ → Values → Bool
has field values = any (λ e. e.0 == field) values

abbrev pub is_over : Option ℕ → ℕ → Bool
is_over none n = false
is_over (some m) n = ltb m n

abbrev pub or_number : Option ℕ → ℕ → ℕ
or_number none n = n
or_number (some m) n = m

abbrev pub take : ℕ → List ℕ → List ℕ
take zero xs = []
take (suc n) [] = []
take (suc n) (x ∷ xs) = x ∷ take n xs

abbrev pub drop : ℕ → List ℕ → List ℕ
drop zero xs = xs
drop (suc n) [] = []
drop (suc n) (x ∷ xs) = drop n xs

abbrev pub or_invalid {ℓ} : {A : Type ℓ} → Option A → Result Stop A
or_invalid none = err invalid
or_invalid (some a) = ok a

abbrev pub refuse_if : Bool → Result Stop (Unit {0})
refuse_if true = err invalid
refuse_if false = ok tt

-- The value of a field, and what is left.
unfoldable pub read_value : Wire → Option ℕ → List ℕ → Result Stop (WireValue × List ℕ)
read_value number_wire max left = do
  read ← or_invalid (read_varint left)
  refuse_if (is_over max read.0)
  ok (number read.0, read.1)
read_value bytes_wire max left = do
  read ← or_invalid (read_varint left)
  refuse_if (ltb (or_number max max_handshake_bytes) read.0 || ltb (length read.1) read.0)
  ok (bytes (take read.0 read.1), drop read.0 read.1)

abbrev pub is_empty : List ℕ → Bool
is_empty [] = true
is_empty (b ∷ bs) = false

-- One turn of the loop: the tag, its definition, and the value.
unfoldable pub read_field : Schema → Values → List ℕ → Result Stop ((ℕ × WireValue) × List ℕ)
read_field schema values left = do
  tag ← or_invalid (read_varint left)
  definition ← or_invalid (lookup (tag.0 / 8) schema)
  refuse_if (not (tag.0 % 8 == wire_number definition.wire) || has (tag.0 / 8) values)
  value ← read_value definition.wire definition.max tag.1
  ok ((tag.0 / 8, value.0), value.1)

abbrev pub next_fields :
    Result Stop ((ℕ × WireValue) × List ℕ)
    → (ℕ × WireValue → List ℕ → Result Stop Values)
    → Result Stop Values
next_fields (err e) rest = err e
next_fields (ok (entry, left)) rest = rest entry left

unfoldable pub fields_from : ℕ → Schema → Values → List ℕ → Result Stop Values
fields_from fuel schema values [] = ok values
fields_from zero schema values (b ∷ bs) = err out_of_fuel
fields_from (suc fuel) schema values (b ∷ bs) =
    next_fields (read_field schema values (b ∷ bs))
      (λ entry left. fields_from fuel schema (values ++ (entry ∷ [])) left)

-- Each turn reads a byte at least, so that there are no more turns than bytes.
unfoldable pub fields : List ℕ → Schema → Result Stop Values
fields buffer schema =
    if ltb max_handshake_bytes (length buffer)
    then err invalid
    else fields_from (length buffer) schema [] buffer

-- `decode` fails on bytes that are not UTF-8.
module _ (decode : List ℕ → Option String) where
  abbrev pub text_of : Option WireValue → Result Stop String
  text_of none = ok ""
  text_of (some (number n)) = err invalid
  text_of (some (bytes b)) = or_invalid (decode b)

  abbrev pub string : Values → ℕ → Result Stop String
  string values field = text_of (lookup field values)

abbrev pub number_of : Option WireValue → Result Stop ℕ
number_of none = ok 0
number_of (some (number n)) = ok n
number_of (some (bytes b)) = err invalid

abbrev pub number_at : Values → ℕ → Result Stop ℕ
number_at values field = number_of (lookup field values)

abbrev pub only_bytes : Values → Result Stop (ℕ × List ℕ)
only_bytes ((field, bytes b) ∷ []) = ok (field, b)
only_bytes _ = err invalid

unfoldable pub envelope : List ℕ → List ℕ → Result Stop (ℕ × List ℕ)
envelope buffer allowed = do
  values ← fields buffer (map (λ f. (f, record { wire = bytes_wire; max = none })) allowed)
  only_bytes values

pub data Kind : Type 0 where
  desktop file : Kind

pub record ProtocolBinding : Type 0 where
  pub target_id : String
  pub kind : Kind
  pub server_public_key : String
  pub relay_uuid : Option String

abbrev pub kind_number : Kind → ℕ
kind_number file = 1
kind_number desktop = 0

abbrev pub bytes_up_to : ℕ → Field
bytes_up_to n = record { wire = bytes_wire; max = some n }

abbrev pub number_up_to : ℕ → Field
number_up_to n = record { wire = number_wire; max = some n }

abbrev pub punch_hole_schema : Schema
punch_hole_schema =
    (1, bytes_up_to 256)
    ∷ (2, number_up_to 2)
    ∷ (3, bytes_up_to 128)
    ∷ (4, number_up_to 1)
    ∷ (6, bytes_up_to 64)
    ∷ (8, number_up_to 1)
    ∷ []

abbrev pub request_relay_schema : Schema
request_relay_schema =
    (1, bytes_up_to 256) ∷ (2, bytes_up_to 36) ∷ (6, bytes_up_to 128) ∷ (7, number_up_to 1) ∷ []

abbrev pub is_nonempty_text : Option String → Bool
is_nonempty_text none = false
is_nonempty_text (some s) = not (s == "")

abbrev pub or_blank : Option String → String
or_blank none = ""
or_blank (some s) = s

module _ (decode : List ℕ → Option String) where
  unfoldable pub validate_punch_hole_request : List ℕ → ProtocolBinding → Result Stop (Unit {0})
  validate_punch_hole_request buffer binding = do
    body ← envelope buffer (8 ∷ [])
    values ← fields body.1 punch_hole_schema
    target ← string decode values 1
    refuse_if (not (target == binding.target_id))
    key ← string decode values 3
    refuse_if (not (key == binding.server_public_key))
    kind ← number_at values 4
    refuse_if (not (kind == kind_number binding.kind))
    force_relay ← number_at values 8
    refuse_if (not (force_relay == 1))
    label ← string decode values 6
    ok tt

  unfoldable pub validate_request_relay : List ℕ → ProtocolBinding → Result Stop (Unit {0})
  validate_request_relay buffer binding = do
    body ← envelope buffer (18 ∷ [])
    values ← fields body.1 request_relay_schema
    refuse_if (not (is_nonempty_text binding.relay_uuid))
    target ← string decode values 1
    refuse_if (not (target == binding.target_id))
    relay ← string decode values 2
    refuse_if (not (relay == or_blank binding.relay_uuid))
    key ← string decode values 6
    refuse_if (not (key == binding.server_public_key))
    kind ← number_at values 7
    refuse_if (not (kind == kind_number binding.kind))

pub data RendezvousReply : Type 0 where
  refused : RendezvousReply
  relay : String → RendezvousReply

abbrev pub refusal_schema : Schema
refusal_schema =
    (3, number_up_to 4)
    ∷ (4, bytes_up_to 2048)
    ∷ (7, bytes_up_to 256)
    ∷ (8, record { wire = number_wire; max = none })
    ∷ []

abbrev pub relay_schema : Schema
relay_schema =
    (1, bytes_up_to 128)
    ∷ (2, bytes_up_to 36)
    ∷ (3, bytes_up_to 2048)
    ∷ (4, bytes_up_to 256)
    ∷ (5, bytes_up_to 4096)
    ∷ (6, bytes_up_to 256)
    ∷ (7, bytes_up_to 64)
    ∷ (9, record { wire = number_wire; max = none })
    ∷ (10, bytes_up_to 128)
    ∷ (11, number_up_to 65535)
    ∷ []

abbrev is_hex_digit : ℕ → Bool
is_hex_digit c = is_digit c || (between 97 102 c || between 65 70 c)

abbrev is_hex_block : ℕ → List ℕ → Bool
is_hex_block n cs = length cs == n && all is_hex_digit cs

abbrev are_relay_blocks : List (List ℕ) → Bool
are_relay_blocks (a ∷ (b ∷ (c ∷ (d ∷ (e ∷ []))))) =
    is_hex_block 8 a
    && (is_hex_block 4 b && (is_hex_block 4 c && (is_hex_block 4 d && is_hex_block 12 e)))
are_relay_blocks _ = false

-- Eight, four, four, four and twelve hexadecimal digits, with dashes between them.
unfoldable pub is_relay_uuid : String → Bool
is_relay_uuid s = are_relay_blocks (split 45 (codes s))

module _ (decode : List ℕ → Option String) where
  unfoldable pub read_refusal : List ℕ → Result Stop RendezvousReply
  read_refusal body = do
    values ← fields body refusal_schema
    reason ← number_at values 3
    refuse_if (not (includes {A = ℕ} (0 ∷ 2 ∷ 3 ∷ 4 ∷ []) reason))
    relay_server ← string decode values 4
    failure ← string decode values 7
    ok refused

  unfoldable pub relay_to : Values → Result Stop RendezvousReply
  relay_to values = do
    uuid ← string decode values 2
    refuse_if (not (is_relay_uuid uuid))
    ok (relay uuid)

  abbrev pub refused_or : Bool → Result Stop RendezvousReply → Result Stop RendezvousReply
  refused_or true rest = ok refused
  refused_or false rest = rest

  unfoldable pub read_relay : List ℕ → Result Stop RendezvousReply
  read_relay body = do
    values ← fields body relay_schema
    refuse_if (has 4 values && has 5 values)
    socket ← string decode values 3
    relay_server ← string decode values 4
    refusal ← string decode values 6
    version ← string decode values 7
    refused_or (not (refusal == "")) (relay_to values)

  unfoldable pub read_rendezvous_reply : List ℕ → Result Stop RendezvousReply
  read_rendezvous_reply buffer = do
    body ← envelope buffer (11 ∷ 19 ∷ [])
    if body.0 == 11 then read_refusal body.1 else read_relay body.1
