-- ===== src/Catalog.antt =====
-- Discovery of the models of a provider (backend/services/model_catalog.py,
-- backend/provider_catalog.py).
pub mod Names
pub mod Requests
pub mod Cache
pub mod Discovery
mod Tests
