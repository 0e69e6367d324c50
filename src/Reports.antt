-- ===== src/Reports.antt =====
-- backend/error_monitoring.py: what is taken out of an error report before it is sent. Keys are their
-- texts; `str.lower` and `str.isspace` are parameters.
pub mod Scrub
mod Tests
