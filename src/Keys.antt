-- ===== src/Keys.antt =====
-- Client API keys (grok2api/admin/apikeys.py), in file mode: the stored keys and the cache of verified
-- ones.
pub mod Store
pub mod Caching
pub mod Runs
pub mod Life
pub mod Tests
