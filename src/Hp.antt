-- ===== src/Hp.antt =====
-- The HorizontalPortrait controller (controllers/autoscaling/horizontalportrait_controller.go).
pub mod Calls
pub mod Job
pub mod Tracked
pub mod Handover
pub mod Loop
mod Tests
