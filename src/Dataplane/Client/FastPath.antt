-- ===== src/Dataplane/Client/FastPath.antt =====
-- The fast path of `handle_client_packet` against the path that consults the sessions.
use quic_sni_router.Base.{
  ℕ, bit_and, ◌≡◌, refl, inl, inr, true, false, none, some, List, [], ◌∷◌, arith, ok, err, invalid,
  truncated, ltb, ◌==◌, ==_refl, Bool-cases, length, set, take, get_or-set_self, read,
  same_bytes_refl, Status,
}
use quic_sni_router.Sockaddr.{Sockaddr}
use quic_sni_router.Probe.{slot_at}
use quic_sni_router.Probe.Walk.{slot_at-lt}
use quic_sni_router.Quic.LongHeader.{parse_long_header}
use quic_sni_router.Quic.Initial.{parse_initial}
use quic_sni_router.Session.Key.{session_tuple_key}
use quic_sni_router.Session.Table.{SessionTable, Session, session_table_get}
use quic_sni_router.Flow.Table.{Flow, flow_table_get}
use quic_sni_router.Dataplane.Sender.{sender_enqueue}
use quic_sni_router.Dataplane.Acquire.{
  other_backend, aim_flow, set_flow, reuse_flow, acquire_by, flow_acquire,
}
use quic_sni_router.Dataplane.Lookup.{long_bit, is_long, learn_client_cids, lookup_encoded_cid}
use quic_sni_router.Dataplane.State.{Dataplane, World}
use quic_sni_router.Dataplane.Client.{
  takes_fast_path, or_ids, find_other_session, classify, forward_known, handle_known, dispatch,
  handle_slow, forward_flow, by_flow, handle_client_packet,
}

-- An Initial has a long header.
pub short_header-parse_initial :
    (packet : List ℕ) → long_bit packet ≡ false → (e : Status) × (parse_initial packet ≡ err e)
unfolding parse_initial parse_long_header read
short_header-parse_initial [] short = (truncated, refl)
short_header-parse_initial (b ∷ packet) short = elim (Bool-cases (ltb (length (b ∷ packet)) 7)) [
  | inl cut ↦ (truncated, rw cut refl)
  | inr sized ↦
      let clear : (bit_and b 0x80 == 0) ≡ true = ground arith in (invalid, rw (sized, clear) refl)
]

module _ (world : World) (dp : Dataplane) (packet : List ℕ) (source : Sockaddr) (source_len now : ℕ)
    (i slot : ℕ) (session : Session) (flow : Flow) where
  -- A flow and a session of the tuple with one backend.
  pub record AgreeOn : Type 0 where
    pub has_session :
        session_table_get world.hash dp.sessions (session_tuple_key source source_len) ≡ some i
    pub session_there : slot_at dp.sessions.sessions i ≡ some session
    pub has_flow : flow_table_get world.hash dp.flows source source_len ≡ some slot
    pub flow_there : slot_at dp.flows.flows slot ≡ some flow
    pub one_backend : flow.backend_addr ≡ session.backend_addr
    pub one_length : flow.backend_addr_len ≡ session.backend_addr_len

  -- What the fast path leaves.
  abbrev pub forwarded : Dataplane
  forwarded = record dp {
    flows = set_flow dp.flows slot (record flow { last_seen = now });
    sender = sender_enqueue dp.sender flow.fd packet flow.backend_addr flow.backend_addr_len;
  }

  -- The sessions with the session of the tuple seen now.
  abbrev pub seen_sessions : SessionTable
  seen_sessions = record dp.sessions {
    sessions = set dp.sessions.sessions i (some (record session { last_seen = now }));
  }

  aimed :
      AgreeOn
      → aim_flow flow session.backend_addr session.backend_addr_len now
        ≡ record flow { last_seen = now }
  unfolding aim_flow
  aimed agree =
      let same : other_backend flow session.backend_addr session.backend_addr_len ≡ false =
        rw
          (
            agree.one_backend,
            agree.one_length,
            ==_refl session.backend_addr_len,
            same_bytes_refl (take session.backend_addr_len session.backend_addr),
          )
          refl in
      rw same refl

  slow_lem :
      AgreeOn
      → takes_fast_path dp.config packet ≡ true
      → handle_slow world dp packet source source_len now
        ≡ ok (record forwarded { sessions = seen_sessions })
  unfolding handle_slow lookup_encoded_cid classify find_other_session or_ids dispatch handle_known
      flow_acquire acquire_by reuse_flow forward_known learn_client_cids
  slow_lem agree fast =
      let disabled : dp.config.cid_codec.enabled ≡ false = ground arith in
      let short : long_bit packet ≡ false = ground arith in
      let (e, refused) = short_header-parse_initial packet short in
      rw
        (
          disabled, refused, agree.has_session, agree.session_there, agree.has_flow,
          agree.flow_there,
        )
        (rw (aimed agree, flow_set, not_long, session_set, agree.one_backend, agree.one_length)
          refl)
    where
      flow_set :
          slot_at (set dp.flows.flows slot (some (record flow { last_seen = now }))) slot
          ≡ some (record flow { last_seen = now })
      flow_set = get_or-set_self dp.flows.flows slot _ none (slot_at-lt _ slot agree.flow_there)

      session_set :
          slot_at (set dp.sessions.sessions i (some (record session { last_seen = now }))) i
          ≡ some (record session { last_seen = now })
      session_set =
          get_or-set_self dp.sessions.sessions i _ none (slot_at-lt _ i agree.session_there)

      not_long : is_long packet ≡ false
      not_long = ground arith

  -- Where encoded ids are off and the tuple of a datagram with a short header has a flow and a
  -- session with one backend, the fast path does what the path over the sessions does: it queues the
  -- datagram once, for that backend and on the flow's own socket, and marks the flow as seen now. The
  -- path over the sessions differs in nothing but the time of the session.
  pub handle_client_packet-handle_slow :
      AgreeOn
      → takes_fast_path dp.config packet ≡ true
      → (handle_client_packet world dp packet source source_len now ≡ ok forwarded)
        × (handle_slow world dp packet source source_len now
            ≡ ok (record forwarded { sessions = seen_sessions }))
  unfolding handle_client_packet by_flow forward_flow
  handle_client_packet-handle_slow agree fast =
      (rw (fast, agree.has_flow, agree.flow_there) refl, slow_lem agree fast)
