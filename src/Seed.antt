-- ===== src/Seed.antt =====
-- cmd/seed/main.go: sample rows for the transfers table.
pub mod Draws
pub mod Rows
pub mod Fill
pub mod Sampled
pub mod Filled
pub mod Tests
