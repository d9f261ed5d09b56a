-- ===== src/Events.antt =====
-- The consumer of the other services' messages (api/src/events.rs): one function for each handler
-- of `Processor`, and `process`.
pub mod Results
pub mod Creation
pub mod Histories
pub mod Ownership
pub mod Imports
pub mod Imported
pub mod Dispatch
pub mod Confirmations
pub mod Settlement
pub mod Handover
