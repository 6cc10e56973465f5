-- ===== src/Updater.antt =====
-- The managed updater: versions, manifests and the catalog of releases, the planner, the durable task
-- journal, the worker that carries a task out and the control service that accepts tasks.
pub mod Contracts
pub mod Version
pub mod Manifest
pub mod Catalog
pub mod Planner
pub mod Store
pub mod Worker
pub mod Control
mod Tests
