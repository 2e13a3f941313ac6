-- ===== src/Api.antt =====
-- The API objects (apis/autoscaling/v1alpha1), with the fields that the controllers read or write.
pub mod Meta
pub mod ReplicaProfile
pub mod Metrics
pub mod Algorithm
pub mod HorizontalPortrait
pub mod Ihpa
