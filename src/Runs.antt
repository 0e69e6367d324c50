-- ===== src/Runs.antt =====
-- Evaluation runs in the database: their execution by a worker and their endpoints
-- (backend/services/run_execution.py, backend/api/runs.py).
pub mod Models
pub mod Execution
pub mod Endpoints
mod Tests
