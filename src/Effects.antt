-- ===== src/Effects.antt =====
-- The service's surroundings and the steps that handlers are made of: the database, the credits
-- client, the message producer, the cache and the job queue.
mod State
mod Monad
mod Tables
mod Steps
mod Jobs
mod Rules
pub use State.*
unfoldable pub use Monad.*
unfoldable pub use Tables.*
unfoldable pub use Steps.*
unfoldable pub use Jobs.*
pub use Rules.*
