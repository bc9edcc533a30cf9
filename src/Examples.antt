-- ===== src/Examples.antt =====
-- The results of this library applied to small concrete inputs.
pub mod Sessions
pub mod Storage
mod Feeds
mod Polling
mod Lifecycle
mod Web
mod Archived
mod Simulating
mod Debugging
mod Playing
