-- ===== src/Mutations/Mints.antt =====
-- The mutations of mints (api/src/mutations/mint.rs).
pub mod Editions
pub mod Queue
pub mod Random
pub mod ToCollection
pub mod Updates
