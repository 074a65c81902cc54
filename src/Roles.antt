-- ===== src/Roles.antt =====
-- src/app/core/roles_service.py: the roles of the realm.
pub mod Model
pub mod View
pub mod Graph
pub mod Change
pub mod Protected
pub mod Listed
pub mod Others
pub mod Kept
pub mod Search
pub mod Below
pub mod Acyclic
mod Tests
