-- ===== src/Policy.antt =====
-- The evaluation of migration policies, version 2: the crate src/policy, modules v2/policy.rs,
-- v2/servtd_collateral.rs and v2/mod.rs.
pub mod Fallible
pub mod Text
pub mod Status
pub mod ServtdStatus
pub mod Property
pub mod Evaluate
pub mod Measurements
pub mod Hex
pub mod Verify
