-- ===== src/Quic.antt =====
-- The QUIC wire format: src/quic_initial.c and src/quic_frames.c.
pub mod Varint
pub mod LongHeader
pub mod Initial
pub mod Crypto
pub mod CryptoStream
pub mod Frames
