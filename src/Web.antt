-- ===== src/Web.antt =====
-- src/app/adapters/web: forms, handlers and the edge middleware.
pub mod Forms
pub mod Views
pub mod Session
pub mod Accounts
pub mod TaskHandlers
pub mod Middleware
pub mod Anonymous
