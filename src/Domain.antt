-- ===== src/Domain.antt =====
-- src/app/domain: the values of the program and their validation.
pub mod Tasks
pub mod Users
pub mod Outbox
pub mod Validation
pub mod Emails
