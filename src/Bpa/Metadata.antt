-- ===== src/Bpa/Metadata.antt =====
-- bpa/src/bundle/status.rs, bpa/src/bundle/mod.rs and bpa/src/storage/metadata_mem.rs: the status of a
-- bundle and the metadata store in memory.
pub mod Status
pub mod Bundles
pub mod Recency
pub mod Store
pub mod Tidy
pub mod Operations
pub mod Puts
pub mod Refines
pub mod Invariant
pub mod Races
pub mod Polls
pub mod Resets
mod Runs
