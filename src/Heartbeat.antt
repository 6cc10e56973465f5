-- ===== src/Heartbeat.antt =====
-- The heartbeats of devices: what they report is buffered and written in batches.
pub mod Cache
pub mod Disconnects
pub mod Connections
pub mod Service
pub mod Answers
mod Tests
