-- ===== src/Background.antt =====
-- The background worker (api/src/background_worker).
pub mod Errors
pub mod Tasks
pub mod Process
pub mod Uploads
pub mod Worker
