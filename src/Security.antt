-- ===== src/Security.antt =====
-- src/app/adapters/security: the clock, the password hasher, the public identifiers and the session
-- mapping.
pub mod Passwords
pub mod Sessions
pub mod PublicIds
