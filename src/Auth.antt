-- ===== src/Auth.antt =====
-- Roles and permissions of veddb-core/src/auth.
pub mod Operations
pub mod Rbac
mod Tests
