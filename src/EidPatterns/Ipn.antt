-- ===== src/EidPatterns/Ipn.antt =====
-- eid-patterns/src/ipn_pattern.rs: intervals, component patterns and items of the `ipn` scheme, and how
-- the parser merges intervals.
pub mod Interval
pub mod Component
pub mod Item
pub mod Merge
pub mod Subset
