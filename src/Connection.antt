-- ===== src/Connection.antt =====
-- The request handlers: src/connection-ws.c and src/connection-http.c.
pub mod Wait
pub mod Http
