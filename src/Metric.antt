-- ===== src/Metric.antt =====
-- pkg/metric: queries and their results, the metric service, and the metrics client of the reactive
-- generator, which asks a metric provider.
pub mod Data
pub mod Service
pub mod Answer
pub mod Client
pub mod Latest
pub mod Api
pub mod Usage
mod Tests
