-- ===== src/Workspace.antt =====
-- Projects, datasets, their items, variants, credentials and runs in the database, and the endpoints
-- on them (backend/db/models.py, backend/api/ownership.py, backend/api/crud.py,
-- backend/api/provider_credentials.py, backend/dataset_import.py, backend/api/runs.py, backend/schemas.py).
pub mod Models
pub mod Tables
pub mod Database
pub mod Schemas
pub mod Ownership
pub mod Crud
pub mod Credentials
pub mod Import
pub mod Runs
pub mod History
mod Tests
mod Scenarios
