-- ===== src/Admin.antt =====
-- admin/: the management console: the knock in front of its login, its sessions and its changes of grants.
pub mod Knock
pub mod Sessions
pub mod Changes
mod Tests
