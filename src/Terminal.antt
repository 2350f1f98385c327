-- ===== src/Terminal.antt =====
-- The bridge between a browser and a terminal controller: internal/terminal.
pub mod Protocol
pub mod Channels
pub mod Bridge
pub mod Queues
pub mod Commands
pub mod Shown
pub mod Feeding
pub mod Output
pub mod Examples
