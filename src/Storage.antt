-- ===== src/Storage.antt =====
-- The event log: src/storage.
pub mod Bytes
pub mod EventLog
