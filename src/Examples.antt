-- ===== src/Examples.antt =====
-- Instances of the theorems at concrete inputs.
mod Console
mod Requests
mod Server
mod Room
mod Consumer
mod Status
mod Rooms
mod Gateway
mod Drawn
mod Manager
mod Creation
mod Accounts
mod Maps
mod Settings
mod Rcon
