-- ===== src/Live.antt =====
-- The live stream of the Responses protocol (grok2api/protocol/openai_responses.py).
pub mod Frames
pub mod Streamer
pub mod Client
pub mod Texts
pub mod Bursts
pub mod Calls
pub mod Flushing
pub mod Turns
pub mod Rounds
pub mod Tests
