-- ===== src/Application.antt =====
-- src/app/application: the use cases, each run inside one transaction of its caller.
pub mod Auth
pub mod Profiles
pub mod Tasks
pub mod Outbox
pub mod Soundness
pub mod Ownership
pub mod Privacy
pub mod Confidential
