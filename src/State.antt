-- ===== src/State.antt =====
-- The state of internal/state: one record for each instance, with its sessions.
pub mod Types
pub mod Generation
pub mod Validate
pub mod Sessions
pub mod Entries
pub mod Settle
pub mod Disk
pub mod Store
