-- ===== src/Rbac.antt =====
-- The lookup of permissions, shared/rbac.py.
pub mod Lookup
pub mod Freshness
mod Tests
