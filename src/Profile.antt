-- ===== src/Profile.antt =====
-- The ReplicaProfile controller, controllers/autoscaling/replicaprofile_controller.go.
pub mod Desired
pub mod Calls
pub mod Traffic
pub mod Change
pub mod Loop
pub mod Watch
mod Tests
