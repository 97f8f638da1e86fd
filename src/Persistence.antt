-- ===== src/Persistence.antt =====
-- internal/infrastructure/persistence: the repositories on MySQL.
pub mod Codes
pub mod Roles
pub mod Refreshes
