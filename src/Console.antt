-- ===== src/Console.antt =====
-- The management console, mr1v1-manager-frontend/src: one module for each page.
pub mod Agents
pub mod Matches
pub mod Fetch
pub mod View
pub mod Shell
pub mod Maps
pub mod Users
pub mod Images
pub mod Lists
