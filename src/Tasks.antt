-- ===== src/Tasks.antt =====
-- backend/services/task_manager.py: the evaluation tasks of one process.
pub mod Manager
mod Tests
