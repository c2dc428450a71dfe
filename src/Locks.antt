-- ===== src/Locks.antt =====
-- Locks in Redis among the workers: the election of the worker that runs the maintainers
-- (grok2api/store/leader.py), and the maintenance slot (grok2api/store/locks_redis.py).
pub mod Leader
pub mod Election
pub mod Slot
pub mod Tests
