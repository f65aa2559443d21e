-- ===== src/Config.antt =====
-- src/config.c and include/qsr/config.h: the configuration that a YAML document gives.
pub mod Numbers
pub mod Document
pub mod Sections
