-- ===== src/RateLimit.antt =====
-- The authentication rate limiters, backend/services/auth_rate_limit.py.
pub mod Memory
pub mod Hits
pub mod Window
pub mod Waiting
pub mod Redis
mod Tests
