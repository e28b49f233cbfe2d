-- ===== src/Bpv7.antt =====
-- bpv7/src: the times that bundles carry.
pub mod DtnTime
pub mod CreationTimestamp
mod Runs
