-- ===== src/Route.antt =====
-- The route table: src/route_table.c and include/qsr/route_table.h.
pub mod Hostname
pub mod Table
pub mod Backends
