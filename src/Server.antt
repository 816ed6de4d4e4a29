-- ===== src/Server.antt =====
-- The Go services, mr1v1-server/internal.
pub mod Scheduler
pub mod Room
pub mod Consumer
pub mod Status
pub mod Rooms
pub mod Rows
pub mod Gateway
pub mod Timeouts
pub mod Creation
pub mod Images
pub mod Agent
pub mod Accounts
pub mod Guard
pub mod Maps
pub mod Rcon
