-- ===== src/Entities.antt =====
-- The database entities (api/src/entities/*.rs).
mod Enums
mod Rows
unfoldable pub use Enums.*
pub use Rows.*
