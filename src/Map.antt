-- ===== src/Map.antt =====
-- crates/wiremux/src/map/mod.rs: what every wire's map shares.
pub mod Error
pub mod Policy
pub mod PromptCache
pub mod Tools
