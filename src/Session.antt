-- ===== src/Session.antt =====
-- The session table: src/session_table.c and include/qsr/session_table.h.
pub mod Key
pub mod Table
pub mod Sweep
