-- ===== src/Flow.antt =====
-- The flow table: src/flow_table.c and include/qsr/flow_table.h.
pub mod Table
pub mod Operations
