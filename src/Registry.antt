-- ===== src/Registry.antt =====
-- flask_xxljob/registry/registry_service.py: the Registry lifecycle of one process.
pub mod State
pub mod Outcome
pub mod Register
pub mod Lifecycle
pub mod Remove
pub mod Terminal
pub mod Invariant
pub mod Progress
pub mod Steps
pub mod Contracts
pub mod Service
pub mod Sample
mod Tests
