-- ===== src/RestoreScope.antt =====
-- src/app/core/restore_scope.py: what a restore point offers to restore, and src/app/core/ctl.py's
-- `selection_flag`, which turns a choice into a flag.
pub mod Model
pub mod Nodes
pub mod Groups
pub mod Choice
pub mod Steps
pub mod Guard
pub mod Selection
mod Tests
