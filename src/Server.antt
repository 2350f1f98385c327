-- ===== src/Server.antt =====
-- The mutation and confirmation handlers of internal/server.
pub mod Operations
pub mod Mutations
pub mod Confirmations
pub mod Dispatch
pub mod Guards
pub mod Granted
pub mod Replays
pub mod Finish
pub mod Outcomes
pub mod RunText
pub mod Runs
pub mod RunReads
pub mod Examples
