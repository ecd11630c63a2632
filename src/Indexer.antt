-- ===== src/Indexer.antt =====
-- internal/indexer: Voyager items are parsed, and the bridges are tracked in the transfers table.
pub mod Items
pub mod Render
pub mod Fields
pub mod Parser
pub mod Batches
pub mod Marks
pub mod Clean
pub mod CleanItems
pub mod Sync
pub mod Events
pub mod Routes
pub mod Effects
pub mod Growth
pub mod Handlers
pub mod Passes
pub mod Ordered
pub mod Tracked
pub mod Cursors
pub mod Polls
pub mod Quiet
pub mod Relevant
pub mod Runs
pub mod Goroutines
pub mod Interleaved
pub mod Polled
pub mod Schedules
pub mod Starts
pub mod Rows
pub mod Agrees
pub mod Tests
pub mod Replays
