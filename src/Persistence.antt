-- ===== src/Persistence.antt =====
-- src/app/adapters/persistence: the models, the repositories over one transaction, and
-- the runner that commits or rolls back.
pub mod Models
pub mod Users
pub mod Tasks
pub mod Outbox
pub mod Engine
pub mod Validity
