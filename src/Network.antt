-- ===== src/Network.antt =====
-- backend/network_security.py: the check of a custom provider's address. The ipaddress module, urlsplit,
-- the methods of texts and the resolver are parameters; `none` is the exception that they raise.
pub mod Endpoint
mod Tests
