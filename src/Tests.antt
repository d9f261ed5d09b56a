-- ===== src/Tests.antt =====
-- Witnesses of the theorems at one small state of the service, and runs of handlers in it.
mod Example
mod Requests
mod Mints
mod Messages
mod Objects
mod Random
mod Jobs
mod Patches
mod Drops
mod Collections
