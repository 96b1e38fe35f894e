-- ===== src/Tools.antt =====
-- The programs under tools/ that developers and agents run beside the service.
pub mod Shlex
pub mod HookPolicy
pub mod Dev
pub mod Seed
