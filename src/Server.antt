-- ===== src/Server.antt =====
-- The crate server.
pub mod Http
