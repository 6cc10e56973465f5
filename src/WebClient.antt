-- ===== src/WebClient.antt =====
-- The web client's gateway: the handshake that it reads before it relays.
pub mod Protocol
mod Tests
