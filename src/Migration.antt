-- ===== src/Migration.antt =====
-- The migration core: src/migtd/src/migration.
pub mod Status
pub mod Transport
pub mod PreSession
pub mod Info
pub mod Requests
pub mod Version
pub mod KeyExchange
pub mod Service
pub mod Logging
