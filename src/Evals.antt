-- ===== src/Evals.antt =====
-- The evaluation core of the evals package: metrics, the provider's retry loop, the concurrent
-- runner and its summaries.
pub mod Models
pub mod Metrics
pub mod Provider
pub mod Runner
mod Tests
