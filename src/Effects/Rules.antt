-- ===== src/Effects/Rules.antt =====
-- Rules for statements about handlers. `Wp Q m w` says that `Q` holds of the result of `m` at `w`
-- and of the state that it leaves; a proof goes through a handler with one rule for each step.
mod Control
mod Database
mod Services
mod Rows
mod Jobs
mod Loops
pub use Control.*
pub use Database.*
pub use Services.*
pub use Rows.*
pub use Jobs.*
pub use Loops.*
