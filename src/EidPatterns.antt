-- ===== src/EidPatterns.antt =====
-- The crate `hardy-eid-patterns` (eid-patterns/src), with its feature `dtn-pat-item`, which the agent
-- turns on.
pub mod Ipn
pub mod Dtn
pub mod Pattern
mod Runs
