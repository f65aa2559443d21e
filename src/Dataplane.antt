-- ===== src/Dataplane.antt =====
-- src/udp.c: what the router does with a datagram. The sockets are parameters or effects.
pub mod Sender
pub mod Pending
pub mod Lookup
pub mod Acquire
pub mod State
pub mod Fresh
pub mod Client
pub mod Sweeps
pub mod Receive
pub mod Listen
