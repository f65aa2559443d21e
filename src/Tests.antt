-- ===== src/Tests.antt =====
-- The theorems at concrete inputs.
mod QuicHeaders
mod QuicStream
mod Names
mod Tables
mod TableRuns
mod Hashing
mod Configuration
mod Decryption
mod Datagrams
mod Lookups
mod Queues
