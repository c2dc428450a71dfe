-- ===== src/Providers.antt =====
-- The providers (grok2api/providers): the registry of adapters.
pub mod Registry
pub mod Resolution
pub mod Choice
pub mod Missing
pub mod Tests
