-- ===== src/Http.antt =====
-- src/http: the HTTP server and the health handler.
pub mod Server
pub mod Health
pub mod Json
pub mod Stats
pub mod Listener
