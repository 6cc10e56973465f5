-- ===== src/Rbac.antt =====
-- Role-based access control: the permission catalog, the authorization service, and the roles of
-- users.
pub mod Catalog
pub mod Database
pub mod Authorization
pub mod Protection
pub mod Effective
pub mod Roles
pub mod Eligibility
pub mod Delegation
pub mod RoleRules
pub mod Editing
mod Tests
