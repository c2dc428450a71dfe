-- ===== src/Affinity.antt =====
-- Which account a conversation stays with (grok2api/pool/conversation_affinity.py), with Redis off.
pub mod Pins
pub mod Unpinned
pub mod Cleared
pub mod Bound
pub mod Failover
pub mod Tests
