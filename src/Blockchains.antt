-- ===== src/Blockchains.antt =====
-- The two blockchains that the service sends transactions for (api/src/blockchains).
pub mod Solana
pub mod Polygon
