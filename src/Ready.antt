-- ===== src/Ready.antt =====
-- The Redis index of accounts that may be picked (grok2api/store/ready_redis.py): the stored status of
-- an account, the ready and cooldown sets, the leases, and what holds along every run of them.
pub mod Status
pub mod Rows
pub mod SortedSet
pub mod Index
pub mod Placing
pub mod Rebuild
pub mod Publish
pub mod Claiming
pub mod Runs
pub mod Leases
pub mod Served
pub mod Versions
pub mod Published
pub mod Samples
pub mod Tests
