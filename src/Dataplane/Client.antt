-- ===== src/Dataplane/Client.antt =====
-- The two directions of src/udp.c: a datagram of a client, and a datagram of a backend.
pub mod Drops
pub mod FastPath
pub mod Migration
use quic_sni_router.Base.{
  ℕ, Bool, not, ◌&&◌, Option, none, some, List, ok, err, fault, ltb, if◌then◌else◌, length, set,
  option_read, Result, ◌>>=◌,
}
use quic_sni_router.Sockaddr.{Sockaddr}
use quic_sni_router.Quic.Initial.{Initial, parse_initial}
use quic_sni_router.Session.Key.{SessionKey, session_tuple_key, session_cid_key}
use quic_sni_router.Session.Table.{SessionTable, Session, session_table_get}
use quic_sni_router.Config.Sections.{Config}
use quic_sni_router.Flow.Table.{flow_table_get}
use quic_sni_router.Dataplane.Sender.{sender_enqueue}
use quic_sni_router.Dataplane.Lookup.{
  long_bit, backend_at, backend_len_at, bind_client_tuple, learn_client_cids, learn_backend_scid,
  if_configured, lookup_request_dcid, lookup_short_header_cid, lookup_long_header_dcid,
  lookup_encoded_cid,
}
use quic_sni_router.Dataplane.Acquire.{set_flow, flow_acquire}
use quic_sni_router.Probe.{slot_at}
use quic_sni_router.Dataplane.State.{Dataplane, World, flow_at}
use quic_sni_router.Dataplane.Fresh.{handle_unknown}

-- The test of the fast path: encoded ids are off, and the header is short.
abbrev pub takes_fast_path : Config → List ℕ → Bool
takes_fast_path config packet =
    not config.cid_codec.enabled && (ltb 0 (length packet) && not (long_bit packet))

-- The first slot, or else the second.
abbrev pub or_slot : Option ℕ → Option ℕ → Option ℕ
or_slot (some i) other = some i
or_slot none other = other

module _ (hash : List ℕ → ℕ) where
  -- The session of an Initial: by its pair of ids, or by its DCID where that leads to a configured
  -- backend. What `lookup_encoded_cid` found is not used.
  unfoldable pub find_initial_session : Config → SessionTable → Initial → Option ℕ
  find_initial_session config t initial =
      or_slot
        (session_table_get hash t
          (session_cid_key initial.dcid initial.dcid_len initial.scid initial.scid_len))
        (lookup_request_dcid hash config.routes t initial)

  -- Binds the tuple to the backend of a session that an id led to, and looks the tuple up.
  unfoldable pub rebind :
      SessionTable → SessionKey → ℕ → Option ℕ → Result (SessionTable × Option ℕ)
  rebind t key now none = ok (t, none)
  rebind t key now (some i) = do
    session ← option_read (slot_at t.sessions i)
    t' ← bind_client_tuple hash t key session.backend_addr session.backend_addr_len now
    ok (t', session_table_get hash t' key)

  -- The lookup by the DCID of a long header, where nothing is found before.
  unfoldable pub or_long_dcid :
      Config → List ℕ → SessionKey → ℕ → SessionTable × Option ℕ → Result (SessionTable × Option ℕ)
  or_long_dcid config packet key now (t, some i) = ok (t, some i)
  or_long_dcid config packet key now (t, none) = do
    cid_session ← lookup_long_header_dcid hash t packet
    rebind t key now (if_configured hash config.routes t cid_session)

  -- The lookups by id, where the tuple has no session.
  unfoldable pub or_ids :
      Config → SessionTable → List ℕ → SessionKey → ℕ → Option ℕ → Result (SessionTable × Option ℕ)
  or_ids config t packet key now (some i) = ok (t, some i)
  or_ids config t packet key now none = do
    cid_session ← lookup_short_header_cid hash t packet
    rebound ← rebind t key now cid_session
    or_long_dcid config packet key now rebound

  -- The session of a datagram that is no Initial: by the tuple, by the CID of a short header, by the
  -- DCID of a long header where that leads to a configured backend.
  unfoldable pub find_other_session :
      Config → SessionTable → List ℕ → SessionKey → ℕ → Result (SessionTable × Option ℕ)
  find_other_session config t packet key now =
      or_ids config t packet key now (session_table_get hash t key)

  -- The classification of `handle_client_packet`, by what `qsr_quic_parse_initial` returned and what
  -- `lookup_encoded_cid` found.
  unfoldable pub classify :
      Config
      → SessionTable
      → List ℕ
      → SessionKey
      → ℕ
      → Result Initial
      → Option ℕ
      → Result (SessionTable × Option ℕ)
  classify config t packet key now (ok initial) found =
      ok (t, find_initial_session config t initial)
  classify config t packet key now fault found = fault
  classify config t packet key now (err e) (some i) = ok (t, some i)
  classify config t packet key now (err e) none = find_other_session config t packet key now

module _ (world : World) where
  -- The end of `handle_known`, once the flow is known or could not be had. `session` is a pointer to
  -- the slot `index` of the sessions: what stands there is read anew behind every call that writes to
  -- the table.
  unfoldable pub forward_known : Dataplane → List ℕ → ℕ → ℕ → ℕ → Option ℕ → Result Dataplane
  forward_known dp packet index backend_len now none = ok dp
  forward_known dp packet index backend_len now (some slot) = do
    flow ← flow_at dp.flows slot
    learned ←
        learn_client_cids world.hash dp.sessions packet (λ t. backend_at (slot_at t.sessions index))
          backend_len now slot flow.id
    let there = slot_at learned.sessions index
    ok (record dp {
      sessions = learned;
      sender = sender_enqueue dp.sender flow.fd packet (backend_at there) (backend_len_at there);
    })

  -- A datagram of the session in a slot.
  unfoldable pub handle_known : Dataplane → List ℕ → Sockaddr → ℕ → ℕ → ℕ → Result Dataplane
  handle_known dp packet source source_len index now = do
    session ← option_read (slot_at dp.sessions.sessions index)
    let seen : Session = record session { last_seen = now }
    let sessions : SessionTable = record dp.sessions {
      sessions = set dp.sessions.sessions index (some seen);
    }
    (flows, slot) ←
        flow_acquire world.hash world.kernel dp.flows source source_len seen.backend_addr
          seen.backend_addr_len now
    forward_known (record dp { sessions = sessions; flows = flows }) packet index
        seen.backend_addr_len now slot

  -- What follows the classification.
  unfoldable pub dispatch :
      Dataplane → List ℕ → Sockaddr → ℕ → ℕ → Result Initial → Option ℕ → Result Dataplane
  dispatch dp packet source source_len now initial (some i) =
      handle_known dp packet source source_len i now
  dispatch dp packet source source_len now initial none =
      handle_unknown world dp packet source source_len (session_tuple_key source source_len) initial
        now

  -- The part of `handle_client_packet` behind the fast path.
  unfoldable pub handle_slow : Dataplane → List ℕ → Sockaddr → ℕ → ℕ → Result Dataplane
  handle_slow dp packet source source_len now = do
    let key = session_tuple_key source source_len
    let initial = parse_initial packet
    (t, found) ← lookup_encoded_cid world.hash world.cipher dp.config dp.sessions packet key now
    (t', session) ← classify world.hash dp.config t packet key now initial found
    dispatch (record dp { sessions = t' }) packet source source_len now initial session

  -- The fast path: the datagram goes to the backend of the tuple's flow.
  unfoldable pub forward_flow : Dataplane → List ℕ → ℕ → ℕ → Result Dataplane
  forward_flow dp packet now slot = do
    flow ← flow_at dp.flows slot
    ok (record dp {
      flows = set_flow dp.flows slot (record flow { last_seen = now });
      sender = sender_enqueue dp.sender flow.fd packet flow.backend_addr flow.backend_addr_len;
    })

  -- `handle_client_packet` behind the flow lookup of the fast path.
  unfoldable pub by_flow : Dataplane → List ℕ → Sockaddr → ℕ → ℕ → Option ℕ → Result Dataplane
  by_flow dp packet source source_len now (some slot) = forward_flow dp packet now slot
  by_flow dp packet source source_len now none = handle_slow dp packet source source_len now

  -- `handle_client_packet`
  unfoldable pub handle_client_packet : Dataplane → List ℕ → Sockaddr → ℕ → ℕ → Result Dataplane
  handle_client_packet dp packet source source_len now = by_flow dp packet source source_len now (
      if takes_fast_path dp.config packet
      then flow_table_get world.hash dp.flows source source_len
      else none)

  -- `handle_backend_packet`, of the flow in a slot.
  unfoldable pub handle_backend_packet : Dataplane → ℕ → List ℕ → ℕ → Result Dataplane
  handle_backend_packet dp slot packet now = do
    flow ← flow_at dp.flows slot
    learned ←
        learn_backend_scid world.hash dp.sessions packet flow.backend_addr flow.backend_addr_len now
          slot flow.id
    ok (record dp {
      flows = set_flow dp.flows slot (record flow { last_seen = now });
      sessions = learned;
      sender = sender_enqueue dp.sender dp.main_fd packet flow.client_addr flow.client_addr_len;
    })
