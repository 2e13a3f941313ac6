-- ===== src/Ihpa.antt =====
-- controllers/autoscaling/intelligenthorizontalpodautoscaler_controller.go
pub mod Gray
pub mod Calls
pub mod Profile
pub mod Portrait
pub mod Reconcile
pub mod Loop
mod Tests
