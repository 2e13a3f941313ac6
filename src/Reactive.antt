-- ===== src/Reactive.antt =====
-- pkg/portrait/generator/reactive: portraits from the latest metrics.
pub mod Calculator
pub mod Generator
pub mod Counted
pub mod Justified
mod Tests
