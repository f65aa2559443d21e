-- ===== src/Cid.antt =====
-- Connection ids that carry a server id: src/cid_codec.c and include/qsr/cid_codec.h. OpenSSL's
-- AES-128-CTR is a parameter.
pub mod Codec
