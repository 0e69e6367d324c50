-- ===== src/Auth.antt =====
-- Accounts: refresh sessions, account action tokens and the endpoints that use them
-- (backend/db/models.py, backend/services, backend/api/auth.py).
pub mod AccessTokens
pub mod Models
pub mod Sessions
pub mod Tokens
pub mod Http
pub mod Endpoints
pub mod Recovery
mod Bearer
mod Tests
mod Scenarios
