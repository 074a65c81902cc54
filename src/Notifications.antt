-- ===== src/Notifications.antt =====
-- src/app/core/notifications: what calls for a notification and who receives it.
pub mod Model
pub mod Validate
pub mod Decide
pub mod Files
pub mod Store
