-- ===== src/Dataplane/Client/Migration.antt =====
-- A client of src/udp.c that comes back from another address: its datagram is found by the id.
use quic_sni_router.Base.{ℕ, ◌≡◌, ◌≢◌, refl, true, false, none, some, List, arith, ok}
use quic_sni_router.Sockaddr.{Sockaddr}
use quic_sni_router.Probe.{slot_at, exhausted}
use quic_sni_router.Session.Key.{SessionKey, key_valid, session_tuple_key}
use quic_sni_router.Session.Table.{
  Session, SessionTable, backend_valid, find_key, session_table_get, pressure_evict_needed,
}
use quic_sni_router.Session.Table.Lookup.{IsTable}
use quic_sni_router.Session.Table.Insertion.{Stored, session_table_put_stores}
use quic_sni_router.Flow.Table.{flow_table_get}
use quic_sni_router.Dataplane.Lookup.{
  long_bit, put_session, bind_client_tuple, lookup_short_header_cid, lookup_encoded_cid,
}
use quic_sni_router.Dataplane.State.{Dataplane, World}
use quic_sni_router.Dataplane.Client.{
  takes_fast_path, rebind, or_long_dcid, or_ids, find_other_session, classify, handle_known,
  dispatch, handle_slow, by_flow, handle_client_packet,
}
use quic_sni_router.Dataplane.Client.FastPath.{short_header-parse_initial}

module _ (world : World) (dp : Dataplane) (packet : List ℕ) (source : Sockaddr) (source_len now : ℕ)
    (i : ℕ) (session : Session) where
  abbrev tuple_key : SessionKey
  tuple_key = session_tuple_key source source_len

  -- The session that binds the new tuple to the backend of the old session.
  abbrev pub binding : Session
  binding = record {
    key = tuple_key;
    backend_addr = session.backend_addr;
    backend_addr_len = session.backend_addr_len;
    last_seen = now;
    owner_slot = 0;
    owner_flow_id = 0;
  }

  -- The tuple has no session and no flow, the connection id leads to the session in slot `i`, and
  -- the table has a place for the tuple without an eviction.
  pub record HasMoved : Type 0 where
    pub reachable : IsTable world.hash dp.sessions
    pub tuple_valid : key_valid tuple_key ≡ true
    pub tuple_unknown : session_table_get world.hash dp.sessions tuple_key ≡ none
    pub no_flow : flow_table_get world.hash dp.flows source source_len ≡ none
    pub cid_known : lookup_short_header_cid world.hash dp.sessions packet ≡ ok (some i)
    pub cid_session : slot_at dp.sessions.sessions i ≡ some session
    pub routable : backend_valid session.backend_addr session.backend_addr_len ≡ true
    pub calm : pressure_evict_needed dp.sessions ≡ false
    pub has_place : find_key world.hash dp.sessions tuple_key ≢ exhausted

  -- Where encoded ids are off, a datagram with a short header from an address that has no session
  -- and no flow, whose connection id leads to a session, is handled as a datagram of a known session:
  -- that of the new address, which a lookup finds, with the backend of the old session and seen now.
  -- The sessions stay reachable. The session table is below its pressure limit and has an empty slot
  -- on the walk of the new address.
  pub handle_client_packet-handle_known :
      HasMoved
      → takes_fast_path dp.config packet ≡ true
      → (t : SessionTable) × (p : ℕ) × (handle_client_packet world dp packet source source_len now
          ≡ handle_known world (record dp { sessions = t }) packet source source_len p now)
        × Stored world.hash dp.sessions binding t p
  unfolding handle_client_packet by_flow handle_slow lookup_encoded_cid classify find_other_session
      or_ids or_long_dcid rebind bind_client_tuple put_session dispatch
  handle_client_packet-handle_known moved fast =
      let disabled : dp.config.cid_codec.enabled ≡ false = ground arith in
      let short : long_bit packet ≡ false = ground arith in
      let (e, refused) = short_header-parse_initial packet short in
      let (t, p, run, stored) =
        session_table_put_stores world.hash dp.sessions binding moved.reachable moved.tuple_valid
          moved.routable moved.calm moved.has_place in
      (
        t,
        p,
        rw
            (
              fast, moved.no_flow, disabled, refused, moved.tuple_unknown, moved.cid_known,
              moved.cid_session, run, stored.found,
            )
            refl,
        stored,
      )
