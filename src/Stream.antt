-- ===== src/Stream.antt =====
-- The stream that an Anthropic client receives (grok2api/protocol/anthropic_compat.py): the assembler
-- of content blocks, and the client that reads them.
pub mod Events
pub mod Assembler
pub mod Client
pub mod Idle
pub mod Blocks
pub mod Shipping
pub mod Feeding
pub mod Closing
pub mod Ending
pub mod Served
pub mod Tests
