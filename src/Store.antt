-- ===== src/Store.antt =====
-- store/store.go: its tables, its statements, and its methods, by the tables that they use.
pub mod Schema
pub mod Sql
pub mod Grants
pub mod Tokens
pub mod Messages
pub mod Outbox
pub mod Inbox
pub mod Admin
pub mod Access
pub mod Pages
