-- ===== src/Lib.antt =====
-- quic-sni-router, a UDP proxy that routes QUIC connections by the server name (SNI) of their first
-- packet. The program parses the Initial packet of an unknown client, decrypts it, puts its CRYPTO
-- frames together, takes the SNI out of the ClientHello, looks the name up in the route table, and
-- remembers the connection in the session table and the flow table. Short-header packets are routed
-- by the sessions, or by a server id that the backend has encrypted into the connection id.
--
-- What models what (paths from the repository's root; a function keeps its name without `qsr_`):
--   Quic      src/quic_initial.c: Varint, LongHeader and Initial are the three parsers.
--             src/quic_frames.c: CryptoStream is `qsr_crypto_stream_t` with its initialization, merge
--             and contiguous length; Frames is `qsr_quic_extract_crypto`, one function per frame.
--             src/quic_crypto.c: Crypto is the derivation of the Initial keys and the decryption. The
--             calls of OpenSSL are the parameter `OpenSsl`.
--   Tls       src/tls_client_hello.c: Reader is `reader_t`, Hostname is `valid_hostname`, and
--             ClientHello is the walk to the SNI.
--   Cid       src/cid_codec.c, with AES-128-CTR of OpenSSL as the parameter `cipher`.
--   Config    src/config.c: Numbers has `parse_u32` and its like, with `strtoul` as the C standard
--             describes it. Document is what libyaml gives, and `copy_scalar`. Sections has one
--             function for a section and one for a pass of its loop, and `qsr_config_load`.
--   Probe     the walk over an open-addressed array that the three tables below share. Probe.Placed
--             has the invariant that makes lookups right.
--   Route     src/route_table.c: Hostname is `normalize_hostname`, Table has insertion and lookup (Sni
--             looks up what the ClientHello parser returns),
--             Backends has resolution (`getaddrinfo` is a parameter) and the index of backends.
--   Session   src/session_table.c: Key has the keys, Table has insertion, lookup, deletion and
--             eviction, Sweep has expiry and filters.
--   Flow      src/flow_table.c: Table has the index, lookup and removal; Operations has eviction,
--             insertion and the sweeps. Calls out of the table (`on_close`, `close`) are a list of
--             effects.
--   Hash      src/hash.c: `qsr_siphash24` on 64-bit words.
--   Runtime   src/runtime.c: the tables of `qsr_runtime_init`, the keep-alive test of the expiry
--             sweep (Keepalive says what it promises), and the evictions of a reload.
--   Dataplane src/udp.c: Sender is the queue of outgoing datagrams, Pending the Initials that wait for
--             the rest of their ClientHello, Lookup the finding and learning of sessions by connection
--             id, Acquire the flow of a client (the kernel is the parameter `Kernel`), Fresh a datagram
--             of an unknown source, Client `handle_client_packet` and `handle_backend_packet`, Sweeps
--             the expiry, Receive `drain_socket`, and Listen `split_listen`. State is
--             `qsr_dataplane_t`, and `World` has the parameters.
--   Sockaddr  `struct sockaddr_storage` as its bytes.
--   Base      helpers: lists measured by native numbers, accesses to byte buffers, statuses.
--   Tests     the theorems at concrete inputs, and runs of the tables.
--
-- A status is `err`, an output is `ok`. `fault` is no value of the program: it is an access outside a
-- buffer, or a loop cut off by its fuel, so a theorem that excludes it shows both absent. A pointer
-- with a length is the list of the bytes; null pointers are left out, since no caller passes one.
-- Numbers are unbounded where the code's widths cannot be left: offsets stay below the lengths of
-- buffers, and values that could wrap keep their modulus.
--
-- Fuel: the frame loop has the length of the plaintext and one more, since each frame takes a byte;
-- the loops over server names and extensions have the lengths of their lists, since each entry takes
-- three and four bytes; the contiguous length has the size of the buffer. Deletions of the session
-- table have a cubic bound of their rounds (Session.Table says why), and a deletion in a deletion does
-- not happen because reinsertions never evict, so depth 2 is enough for insertions.
--
-- `strtoul`, the runs of a flush and the segments of a message have the lengths of their lists as fuel,
-- since each pass takes an item. `drain_socket` has its number of rounds.
--
-- In src/udp.c a `session` is a pointer into the session table. In Dataplane it is the index of the
-- slot, and what stands there is read again behind every call that writes to the table. A queued
-- datagram has its bytes, not the pointer to them: the queue is flushed before the buffers change. The
-- half-written configuration of a failed load is not kept, since its caller frees it.
--
-- The hash of the tables is a parameter: what is proved of them holds for every hash, the one of
-- src/hash.c under any key included.
--
-- Not modelled: `qsr_udp_run`, `configure_socket` and the resolution of the listening address in
-- src/udp.c (sockets, epoll, signals and the main loop), the connection log with the flow fields that
-- only it reads, debug output, the rest of src/runtime.c (the watch of the configuration file and its
-- log lines), src/metrics.c and src/main.c (counters and the command line), the seed of the hash, and
-- the functions that only release memory. Failing allocations are left out.
pub mod Base
pub mod Hash
pub mod Quic
pub mod Tls
pub mod Cid
pub mod Config
pub mod Probe
pub mod Sockaddr
pub mod Route
pub mod Session
pub mod Flow
pub mod Runtime
pub mod Dataplane
pub mod Tests
