-- ===== src/Users.antt =====
-- src/app/core/users_service.py: the accounts.
pub mod Model
pub mod Account
pub mod RoleSet
pub mod View
pub mod Own
pub mod Given
pub mod Created
pub mod Partial
pub mod Steps
mod Tests
