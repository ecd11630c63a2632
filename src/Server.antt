-- ===== src/Server.antt =====
-- internal/server: the read API over the transfers table.
pub mod Cache
pub mod Flights
pub mod Steps
pub mod Shared
pub mod Live
pub mod Once
pub mod Single
pub mod Handlers
pub mod Router
pub mod Routed
pub mod Status
pub mod Served
pub mod Windows
pub mod Tests
pub mod Calls
pub mod Requests
