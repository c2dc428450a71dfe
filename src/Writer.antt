-- ===== src/Writer.antt =====
-- The writer (grok2api/writer.py): it takes queued events from Redis' streams and applies them to the
-- tables, one transaction for each batch.
pub mod Events
pub mod Group
pub mod Grouped
pub mod Stats
pub mod Usage
pub mod Cutting
pub mod Batching
pub mod Transact
pub mod Process
pub mod Delivery
pub mod Lettering
pub mod Losing
pub mod Overtaking
pub mod Tests
