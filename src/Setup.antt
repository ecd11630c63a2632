-- ===== src/Setup.antt =====
-- cmd/setup-trigger/main.go: the functions and triggers that notify the indexer.
pub mod Catalog
pub mod Triggers
pub mod Functions
pub mod Rounds
pub mod Recovery
pub mod Complete
pub mod Tests
