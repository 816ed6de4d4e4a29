-- ===== src/Console/Agents.antt =====
-- pages/AgentsPage.tsx: the host agents and the ports that they offer. `Ports` and `Versions` are
-- its pure functions, `Page` its state and handlers, `Containers` the expanded row.
pub mod Ports
pub mod Page
pub mod Versions
pub mod Containers
pub mod Table
