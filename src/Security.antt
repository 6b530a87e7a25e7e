-- ===== src/Security.antt =====
-- app/security: roles and permissions, principals, scopes and the two levels of authorization.
pub mod Permission
pub mod Principal
pub mod Authorization
pub mod Scope
mod Tests
