-- ===== src/Strategy.antt =====
-- The strategies of devices: which strategy a device gets, and what is cached of it.
pub mod Store
pub mod Resolution
pub mod Coherence
pub mod Changes
pub mod Assignment
pub mod Invariant
pub mod Binding
pub mod Tables
mod Tests
