-- ===== src/Tests/Lookups.antt =====
-- The lookups of short headers (src/udp.c).
use quic_sni_router.Base.{
  ℕ, bit_and, ◌≡◌, refl, sym, ◌⊎◌, arith, true, Option, none, some, List, [], ◌∷◌, ◌++◌, ok, err,
  fault, ◌==◌, if◌then◌else◌, length, replicate, read, copy, Result,
}
use quic_sni_router.Sockaddr.{Sockaddr}
use quic_sni_router.Probe
use quic_sni_router.Probe.{slot_at, Found, probe}
use quic_sni_router.Quic.LongHeader.{parse_long_header}
use quic_sni_router.Quic.Initial.{parse_initial}
use quic_sni_router.Session.Key.{
  key_valid, serialize, key_hash, key_equals, session_tuple_key, session_cid_key,
  session_single_cid_key,
}
use quic_sni_router.Session.Table.{
  SessionTable, find_key, session_table_get, insert_session, pressure_evict_needed, put_attempt,
  put_attempts, put_internal, session_table_put,
}
use quic_sni_router.Cid.Codec.{
  Cipher, CidCodec, cid_encoded_len, cid_encoded_version, cid_magic, aes128_ctr_crypt, cid_encode,
}
use quic_sni_router.Cid.Codec.RoundTrip.{IsSymmetric}
use quic_sni_router.Config.Sections.{config_default}
use quic_sni_router.Flow.Operations.{open_flow, put_new, flow_table_put}
use quic_sni_router.Flow.Table.{tuple_hash, index_find, flow_table_get}
use quic_sni_router.Dataplane.Sender.{sender_enqueue}
use quic_sni_router.Dataplane.Acquire.{
  flow_socket_open, watch_flow, add_flow, acquire_by, flow_acquire,
}
use quic_sni_router.Dataplane.Lookup.{
  put_session, bind_client_tuple, learn_client_cids, short_cid_loop, lookup_short_header_cid,
  try_decode, lookup_encoded_cid,
}
use quic_sni_router.Dataplane.Lookup.Safety.{
  IsShort, IsLongest, short_bound, lookup_short_header_cid_lem,
}
use quic_sni_router.Dataplane.Lookup.Encoded.{try_decode-encode}
use quic_sni_router.Dataplane.Client.Migration.{
  HasMoved, binding, handle_client_packet-handle_known,
}
use quic_sni_router.Session.Table.Lookup.{home, IsTable}
use quic_sni_router.Session.Table.Insertion.{Stored}
use quic_sni_router.Probe.Placed.{set-IsPlaced, replicate-IsPlaced}
use quic_sni_router.Dataplane.State.{Dataplane}
use quic_sni_router.Dataplane.Client.{
  takes_fast_path, rebind, or_long_dcid, or_ids, find_other_session, classify, forward_known,
  handle_known, dispatch, handle_slow, by_flow, handle_client_packet,
}
use quic_sni_router.Tests.Datagrams.{
  no_hash, session_under, sessions_with, some_world, some_dataplane, short_packet,
}

-- A session under an id of 8 bytes, and a short header with that id.
abbrev cid_sessions : SessionTable
cid_sessions = sessions_with (session_single_cid_key (replicate 8 6) 8) 256

lookup_short_header_cid_run :
    lookup_short_header_cid no_hash cid_sessions short_packet ≡ ok (some 0)
unfolding lookup_short_header_cid short_cid_loop session_table_get find_key key_hash serialize
    session_single_cid_key session_cid_key Probe.probe key_valid key_equals copy
lookup_short_header_cid_run = refl

lookup_short_header_cid_lem_example :
    (found : Option ℕ) × (lookup_short_header_cid no_hash cid_sessions short_packet ≡ ok found)
    × ((IsShort no_hash cid_sessions short_packet
          × IsLongest no_hash cid_sessions short_packet
              (short_bound no_hash cid_sessions short_packet)
              found)
        ⊎ ((¬ IsShort no_hash cid_sessions short_packet) × (found ≡ none)))
lookup_short_header_cid_lem_example = lookup_short_header_cid_lem no_hash cid_sessions short_packet

abbrev plain_text : Cipher
plain_text key iv input = some input

abbrev codec : CidCodec
codec = record { key = replicate 16 9; enabled = true }

abbrev nonce : List ℕ
nonce = 1 ∷ 2 ∷ 3 ∷ 4 ∷ 5 ∷ 6 ∷ 7 ∷ []

abbrev server_cid : List ℕ
server_cid = cid_encoded_version ∷ (nonce ++ (42 ∷ cid_magic))

server_cid_run : cid_encode plain_text codec 42 nonce ≡ ok server_cid
unfolding cid_encode aes128_ctr_crypt
server_cid_run = refl

plain_text-IsSymmetric : IsSymmetric plain_text
plain_text-IsSymmetric key iv input out h = sym h

try_decode-encode_example :
    try_decode plain_text codec (
      if bit_and 0x41 0x80 == 0
      then 0x41 ∷ (server_cid ++ (8 ∷ 9 ∷ []))
      else 0x41 ∷ 0 ∷ 0 ∷ 0 ∷ 1 ∷ cid_encoded_len ∷ (server_cid ++ (8 ∷ 9 ∷ [])))
    ≡ ok 42
try_decode-encode_example =
    try_decode-encode plain_text codec 42 0x41 0 0 0 1 nonce server_cid (8 ∷ 9 ∷ [])
      plain_text-IsSymmetric refl server_cid_run refl

-- A migrated client: its tuple is unknown, and the id leads to the session's backend. The tuple is
-- bound to that backend, and the datagram goes there over a new flow.
abbrev migrated : Dataplane
migrated = record some_dataplane { sessions = cid_sessions }

abbrev other_client : Sockaddr
other_client = 2 ∷ 0 ∷ replicate 126 5

abbrev sent_to : Result Dataplane → Result (ℕ × (ℕ × ℕ))
sent_to fault = fault
sent_to (err e) = err e
sent_to (ok dp) = ok (dp.sessions.count, (length dp.sender.items, dp.flows.count))

migrated_run :
    sent_to (handle_client_packet some_world migrated short_packet other_client 16 100)
    ≡ ok (2, (1, 2))
unfolding handle_client_packet by_flow handle_slow lookup_encoded_cid config_default parse_initial
    parse_long_header read classify find_other_session or_ids or_long_dcid lookup_short_header_cid
    short_cid_loop rebind bind_client_tuple put_session session_table_put put_internal put_attempts
    put_attempt insert_session pressure_evict_needed session_table_get find_key key_hash serialize
    session_tuple_key session_single_cid_key session_cid_key Probe.probe key_valid key_equals copy
    dispatch handle_known flow_acquire acquire_by flow_socket_open add_flow watch_flow
    flow_table_put put_new open_flow flow_table_get index_find tuple_hash forward_known
    learn_client_cids sender_enqueue
migrated_run = refl

cid_sessions-IsTable : IsTable no_hash cid_sessions
unfolding key_hash serialize session_single_cid_key session_cid_key Probe.probe key_equals
cid_sessions-IsTable = record {
  sized = refl;
  some_slots = omega arith;
  placed =
      set-IsPlaced (home no_hash 2) (λ s. true) (replicate 2 none)
        (session_under (session_single_cid_key (replicate 8 6) 8)) 0
        (replicate-IsPlaced (home no_hash 2) 2) (omega arith) refl;
}

moved_client :
    HasMoved some_world migrated short_packet other_client 16 100 0
      (session_under (session_single_cid_key (replicate 8 6) 8))
unfolding pressure_evict_needed session_table_get find_key key_hash serialize session_tuple_key
    session_single_cid_key session_cid_key Probe.probe key_valid key_equals flow_table_get
    index_find tuple_hash
moved_client = record {
  reachable = cid_sessions-IsTable;
  tuple_valid = refl;
  tuple_unknown = refl;
  no_flow = refl;
  cid_known = lookup_short_header_cid_run;
  cid_session = refl;
  routable = refl;
  calm = refl;
  has_place = λ e. cc;
}

short_and_plain : takes_fast_path migrated.config short_packet ≡ true
unfolding config_default
short_and_plain = refl

handle_client_packet-handle_known_example :
    (t : SessionTable) × (p : ℕ) × (handle_client_packet some_world migrated short_packet
        other_client 16 100
      ≡ handle_known some_world
          (record migrated { sessions = t })
          short_packet
          other_client
          16
          p
          100)
    × Stored no_hash cid_sessions
        (binding some_world migrated short_packet other_client 16 100 0
          (session_under (session_single_cid_key (replicate 8 6) 8)))
        t
        p
handle_client_packet-handle_known_example =
    handle_client_packet-handle_known some_world migrated short_packet other_client 16 100 0
      (session_under (session_single_cid_key (replicate 8 6) 8)) moved_client short_and_plain
