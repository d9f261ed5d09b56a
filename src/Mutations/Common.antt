-- ===== src/Mutations/Common.antt =====
-- What the mutations share: reads that join tables, integer conversions, `fetch_owner`, the rows of
-- creators, and `MetadataJsonInput::save`.
mod Queries
mod Writes
mod Side
mod Joins
mod Owner
unfoldable pub use Queries.*
unfoldable pub use Writes.*
pub use Side.*
pub use Joins.*
pub use Owner.*
