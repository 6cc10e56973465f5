-- ===== src/WebClient/Protocol/Varint.antt =====
-- The numbers of the handshake, and their shortest encodings.
use rustdesk_console.Common.{
  ℕ, zero, suc, ◌+◌, ◌/◌, ◌%◌, ◌<◌, ◌≡◌, some, List, [], ◌∷◌, ◌++◌, nat_eq, if◌then◌else◌, ltb,
  arith,
}
use rustdesk_console.WebClient.Protocol.{read_from, read_varint}

-- The shortest encoding, in at most `left` bytes.
abbrev encode_in : ℕ → ℕ → List ℕ
encode_in zero n = []
encode_in (suc left) n =
    let rest = encode_in left (n / 128) in if ltb n 128 then n ∷ [] else (n % 128 + 128) ∷ rest

abbrev pub encode : ℕ → List ℕ
encode n = encode_in 5 n

-- A number below 2^32 is read back from its encoding, whatever follows it.
pub read_varint-encode :
    (n : ℕ) (rest : List ℕ) → n < 4294967296 → read_varint (encode n ++ rest) ≡ some (n, rest)
unfolding read_varint read_from
read_varint-encode n rest h = ground arith
