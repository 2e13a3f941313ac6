-- ===== src/Prometheus.antt =====
-- pkg/metric/provider/prometheus: the metric provider that asks Prometheus.
pub mod Range
pub mod Naming
pub mod Registry
pub mod Query
pub mod Result
pub mod Provider
pub mod Lister
pub mod Relist
pub mod Config
mod Tests
