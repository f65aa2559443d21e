-- ===== src/Tests/Datagrams.antt =====
-- The datagrams of clients (src/udp.c).
use quic_sni_router.Cid.Codec.{Cipher}
use quic_sni_router.Base.{
  inl, ℕ, ◌≡◌, refl, true, false, none, some, List, [], ◌∷◌, arith, ok, replicate,
}
use quic_sni_router.Sockaddr.{Sockaddr}
use quic_sni_router.Probe
use quic_sni_router.Probe.{slot_at, Found, probe}
use quic_sni_router.Session.Key.{
  SessionKey, key_valid, serialize, key_hash, key_equals, session_tuple_key,
}
use quic_sni_router.Session.Table.{SessionTable, Session, find_key, session_table_get}
use quic_sni_router.Config.Sections.{config_default}
use quic_sni_router.Flow.Table.{FlowTable, Flow, tuple_hash, index_find, flow_table_get}
use quic_sni_router.Dataplane.Sender.{empty_sender}
use quic_sni_router.Dataplane.Pending.{pending_init}
use quic_sni_router.Dataplane.Acquire.{descriptor}
use quic_sni_router.Dataplane.State.{Dataplane, World}
use quic_sni_router.Dataplane.Client.{takes_fast_path, handle_slow, handle_client_packet}
use quic_sni_router.Dataplane.Client.Drops.{with_crypto, handle_client_packet-short}
use quic_sni_router.Dataplane.Client.FastPath.{
  AgreeOn, forwarded, seen_sessions, handle_client_packet-handle_slow,
}
use quic_sni_router.Tests.Decryption.{copying_ssl, refusing_ssl, initial_packet}

-- One slot of each table; the hash sends everything to the first slot.
abbrev pub no_hash : List ℕ → ℕ
no_hash bytes = 0

abbrev pub client : Sockaddr
client = 2 ∷ 0 ∷ replicate 126 1

abbrev pub backend : Sockaddr
backend = 2 ∷ 0 ∷ replicate 126 7

abbrev client_flow : Flow
client_flow = record {
  fd = 7;
  client_addr = client;
  client_addr_len = 16;
  backend_addr = backend;
  backend_addr_len = 16;
  last_seen = 90;
  id = 3;
}

abbrev flow_table : FlowTable
flow_table = record {
  flows = none ∷ some client_flow ∷ [];
  index = some 1 ∷ none ∷ none ∷ none ∷ [];
  free_slots = 0 ∷ [];
  capacity = 2;
  index_capacity = 4;
  count = 1;
  expire_cursor = 0;
  evict_cursor = 0;
  has_on_close = false;
  next_id = 4;
  effects = [];
}

abbrev pub session_under : SessionKey → Session
session_under key = record {
  key = key;
  backend_addr = backend;
  backend_addr_len = 16;
  last_seen = 80;
  owner_slot = 1;
  owner_flow_id = 3;
}

abbrev pub sessions_with : SessionKey → ℕ → SessionTable
sessions_with key mask = record {
  sessions = some (session_under key) ∷ none ∷ [];
  capacity = 2;
  count = 1;
  expire_cursor = 0;
  evict_cursor = 0;
  cid_len_mask = mask;
  cid_len_mask_pending = mask;
}

abbrev pub some_world : World
some_world = record {
  hash = no_hash;
  cipher = λ key iv input. some input;
  ssl = copying_ssl;
  kernel = record {
    open_socket = λ attempt address_family. descriptor 9;
    epoll_add = λ fd slot. true;
  };
}

abbrev pub some_dataplane : Dataplane
some_dataplane = record {
  config = config_default;
  sessions = sessions_with (session_tuple_key client 16) 0;
  flows = flow_table;
  pending = pending_init;
  sender = empty_sender;
  main_fd = 4;
}

abbrev pub short_packet : List ℕ
short_packet = 0x40 ∷ replicate 12 6

paths_agree :
    AgreeOn some_world some_dataplane short_packet client 16 100 0 1
      (session_under (session_tuple_key client 16))
      client_flow
unfolding session_table_get find_key key_hash serialize session_tuple_key flow_table_get index_find
    tuple_hash Probe.probe key_valid key_equals
paths_agree = record {
  has_session = refl;
  session_there = refl;
  has_flow = refl;
  flow_there = refl;
  one_backend = refl;
  one_length = refl;
}

fast : takes_fast_path some_dataplane.config short_packet ≡ true
unfolding config_default
fast = refl

abbrev refusing_cipher : Cipher
refusing_cipher key iv input = none

not_encoded : some_dataplane.config.cid_codec.enabled ≡ false
unfolding config_default
not_encoded = refl

handle_client_packet-short_example :
    handle_client_packet some_world some_dataplane initial_packet client 16 100
    ≡ handle_client_packet
        (with_crypto some_world refusing_ssl refusing_cipher)
        some_dataplane
        initial_packet
        client
        16
        100
handle_client_packet-short_example =
    handle_client_packet-short some_world refusing_ssl refusing_cipher some_dataplane initial_packet
      client 16 100 (inl not_encoded) (omega arith)

handle_client_packet-handle_slow_example :
    (handle_client_packet some_world some_dataplane short_packet client 16 100
      ≡ ok (
          forwarded some_world some_dataplane short_packet client 16 100 0 1
            (session_under (session_tuple_key client 16))
            client_flow))
    × (handle_slow some_world some_dataplane short_packet client 16 100
        ≡ ok
            (record (forwarded some_world some_dataplane short_packet client 16 100 0 1
              (session_under (session_tuple_key client 16))
              client_flow) {
                sessions =
                    seen_sessions some_world some_dataplane short_packet client 16 100 0 1
                      (session_under (session_tuple_key client 16))
                      client_flow;
              }))
handle_client_packet-handle_slow_example =
    handle_client_packet-handle_slow some_world some_dataplane short_packet client 16 100 0 1
      (session_under (session_tuple_key client 16)) client_flow paths_agree fast
