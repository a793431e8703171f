-- ===== src/Migration/Logging.antt =====
-- The log that the host can read: src/migtd/src/migration/logging.rs, in the build with the feature
-- vmcall-raw.
pub mod Level
pub mod Entry
pub mod Page
pub mod Append
pub mod Area
pub mod Backend
pub mod Areas
pub mod Record
pub mod Publish
pub mod Health
pub mod Runs
pub mod Enable
pub mod Create
pub mod Evict
pub mod Headers
