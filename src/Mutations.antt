-- ===== src/Mutations.antt =====
-- The GraphQL mutations (api/src/mutations).
pub mod Common
pub mod Mints
pub mod Drops
pub mod Patches
pub mod Collections
pub mod Imports
pub mod Lifecycle
pub mod Retries
pub mod Transfers
