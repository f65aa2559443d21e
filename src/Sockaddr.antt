-- ===== src/Sockaddr.antt =====
-- `struct sockaddr_storage`, as the 128 bytes that the program copies, compares and hashes. The byte
-- order of `ss_family` is that of a little-endian Linux host.
use quic_sni_router.Base.{ℕ, ◌+◌, ◌*◌, Bool, ◌&&◌, ◌||◌, List, ltb, leb, ◌==◌, get_or}

abbrev pub Sockaddr : Type 0
Sockaddr = List ℕ

-- `sizeof(struct sockaddr_storage)`
abbrev pub sockaddr_size : ℕ
sockaddr_size = 128

-- `addr->ss_family`
abbrev pub family : Sockaddr → ℕ
family addr = get_or addr 0 0 + 256 * get_or addr 1 0

abbrev pub af_inet : ℕ
af_inet = 2

abbrev pub af_inet6 : ℕ
af_inet6 = 10

-- The test that `client_valid`, `key_valid` and `backend_valid` share: a length between 1 and the
-- buffer's size, and an IPv4 or IPv6 address.
abbrev pub is_inet : Sockaddr → ℕ → Bool
is_inet addr len =
    (ltb 0 len && leb len sockaddr_size) && (family addr == af_inet || family addr == af_inet6)
