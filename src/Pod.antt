-- ===== src/Pod.antt =====
-- Pods as the program sees them, and their states (pkg/pod, pkg/util/pod.go).
pub mod Data
pub mod Util
pub mod State
pub mod Sorter
pub mod Manager
mod Tests
