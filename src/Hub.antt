-- ===== src/Hub.antt =====
-- The quality hub (services/quality-hub/src/quality_hub).
pub mod Flakiness
pub mod Junit
pub mod Verdicts
pub mod Quarantine
mod Examples
