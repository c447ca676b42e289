-- ===== src/Auth.antt =====
-- The panel's own accounts: apps/server/src/modules/auth.
pub mod Store
pub mod Service
pub mod AdminRoutes
pub mod Lockout
pub mod Sessions
pub mod Logins
pub mod Eviction
pub mod Bootstrap
pub mod LastAdmin
pub mod History
pub mod Conflict
pub mod Middleware
pub mod Guards
mod Tests
