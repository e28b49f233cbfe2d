-- ===== src/Bpa.antt =====
-- The crate bpa.
pub mod Channel
pub mod Metadata
pub mod Reassembly
pub mod NodeIds
pub mod Routing
pub mod Reaper
mod Runs
