-- ===== src/Tls.antt =====
-- The TLS ClientHello: src/tls_client_hello.c.
pub mod Reader
pub mod Hostname
pub mod ClientHello
