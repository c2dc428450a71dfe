-- ===== src/Pool.antt =====
-- The account pool (grok2api/pool/account_pool.py with the parts of grok2api/admin/settings_store.py
-- and grok2api/store/settings_pg.py that it writes through): the metadata of an account, the patches
-- that every operation commits, cooldown, recovery and rotation.
pub mod Meta
pub mod Status
pub mod Cooldown
pub mod Blocks
pub mod View
pub mod FreeUsage
pub mod Stats
pub mod Admin
pub mod Upstream
pub mod Live
pub mod Probe
pub mod Renew
pub mod Commit
pub mod Hold
pub mod Failure
pub mod Kept
pub mod Lifecycle
pub mod Recovery
pub mod Windows
pub mod Events
pub mod Blocking
pub mod Renewal
pub mod Escalation
pub mod Kicks
pub mod Counters
pub mod Counted
pub mod Blame
pub mod Outcome
pub mod Balance
pub mod Tally
pub mod Twice
pub mod Pick
pub mod Picking
pub mod Samples
pub mod Tests
