-- ===== src/Db.antt =====
-- internal/db/bridge.go and migrations: the tables, their statements and the methods of `BridgeDB`.
pub mod Record
pub mod World
pub mod Table
pub mod Bridge
pub mod Statements
pub mod Trees
pub mod Calm
pub mod Advance
pub mod Writes
pub mod Unique
pub mod Listed
pub mod Dedupe
pub mod Sample
pub mod Tests
