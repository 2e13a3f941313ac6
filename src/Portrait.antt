-- ===== src/Portrait.antt =====
-- The portrait providers, pkg/portrait/provider.
pub mod Table
pub mod Cron
pub mod Triggers
pub mod Dynamic
pub mod Provider
mod Tests
