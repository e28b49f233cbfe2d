-- ===== src/EidPatterns/Pattern.antt =====
-- eid-patterns/src/lib.rs: `EidPattern`, built with the feature `dtn-pat-item`.
pub mod Item
pub mod Union
pub mod Subset
pub mod Exact
pub mod Score
