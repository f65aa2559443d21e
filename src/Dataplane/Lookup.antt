-- ===== src/Dataplane/Lookup.antt =====
-- How src/udp.c finds the session of a datagram, and the aliases that it learns.
pub mod Safety
pub mod Encoded
use quic_sni_router.Base.{
  ℕ, zero, suc, ◌+◌, ◌-◌, ◌^◌, min, bit_and, Bool, not, ◌&&◌, ◌||◌, Option, none, some, List, ok,
  err, fault, invalid, ltb, leb, ◌==◌, if◌then◌else◌, length, get_elem?, get_or, take, drop,
  replicate, read, copy, big_endian, Result, reject_if, ◌>>=◌, ◌>>◌,
}
use quic_sni_router.Sockaddr.{Sockaddr, sockaddr_size}
use quic_sni_router.Probe.{slot_at}
use quic_sni_router.Quic.LongHeader.{
  quic_v1, quic_v2, max_quic_cid_len, LongHeader, parse_long_header,
}
use quic_sni_router.Quic.Initial.{Initial}
use quic_sni_router.Session.Key.{
  SessionKey, min_learned_cid_len, session_cid_key, session_single_cid_key,
}
use quic_sni_router.Session.Table.{SessionTable, Session, session_table_get, session_table_put}
use quic_sni_router.Cid.Codec.{CidCodec, cid_encoded_len, Cipher, cid_decode}
use quic_sni_router.Route.Table.{RouteTable, Route, route_table_lookup_by_server_id}
use quic_sni_router.Route.Backends.{route_table_has_backend}
use quic_sni_router.Config.Sections.{Config}

-- `(packet[0] & 0x80) != 0` and `(packet[0] & 0x40) != 0`, of a packet that is not empty.
abbrev pub long_bit : List ℕ → Bool
long_bit packet = not (bit_and (get_or packet 0 0) 0x80 == 0)

abbrev pub fixed_bit : List ℕ → Bool
fixed_bit packet = not (bit_and (get_or packet 0 0) 0x40 == 0)

abbrev pub is_long : List ℕ → Bool
is_long packet = not (length packet == 0) && (long_bit packet && fixed_bit packet)

-- `session->backend_addr` through a pointer to a slot: a slot that is not in use is zero.
abbrev pub backend_at : Option Session → Sockaddr
backend_at none = replicate sockaddr_size 0
backend_at (some session) = session.backend_addr

abbrev pub backend_len_at : Option Session → ℕ
backend_len_at none = 0
backend_len_at (some session) = session.backend_addr_len

-- The version field, and whether it is one of the two that the program knows.
abbrev pub known_version : List ℕ → Bool
known_version packet =
    let version = big_endian 0 (take 4 (drop 1 packet)) in version == quic_v1 || version == quic_v2

-- The address and the length of the route's backend, once it is resolved.
abbrev pub resolved_backend : Option Route → Option (Sockaddr × ℕ)
resolved_backend none = none
resolved_backend (some route) =
    if route.backend_resolved then some (route.backend_addr, route.backend_addr_len) else none

abbrev pub route_at : RouteTable → Option ℕ → Option Route
route_at t none = none
route_at t (some i) = get_elem? t.routes i

-- A session that is found ends the loop.
abbrev pub or_shorter : Option ℕ → Result (Option ℕ) → Result (Option ℕ)
or_shorter none shorter = shorter
or_shorter (some i) shorter = ok (some i)

module _ (hash : List ℕ → ℕ) where
  -- `qsr_session_table_put` and `qsr_session_table_put_owned` with the status left aside.
  unfoldable pub put_session :
      SessionTable → SessionKey → Sockaddr → ℕ → ℕ → ℕ → ℕ → Result SessionTable
  put_session t key dest dest_len now owner_slot owner_flow_id = do
    (t', status) ← session_table_put hash t (record {
      key = key;
      backend_addr = dest;
      backend_addr_len = dest_len;
      last_seen = now;
      owner_slot = owner_slot;
      owner_flow_id = owner_flow_id;
    })
    ok t'

  -- `put_alias`
  unfoldable pub put_alias :
      SessionTable → SessionKey → Sockaddr → ℕ → ℕ → ℕ → ℕ → Result SessionTable
  put_alias t key dest dest_len now owner_slot owner_flow_id =
      if key.has_cids || key.has_tuple
      then put_session t key dest dest_len now owner_slot owner_flow_id
      else ok t

  -- `bind_client_tuple`
  unfoldable pub bind_client_tuple :
      SessionTable → SessionKey → Sockaddr → ℕ → ℕ → Result SessionTable
  bind_client_tuple t key backend backend_len now = put_session t key backend backend_len now 0 0

  -- `learn_client_long_header_cids`. Its `backend` is a pointer that may lead into the table, so it is
  -- the function from the table to what stands there; each insertion reads it when it begins.
  unfoldable pub learn_client_cids :
      SessionTable → List ℕ → (SessionTable → Sockaddr) → ℕ → ℕ → ℕ → ℕ → Result SessionTable
  learn_client_cids t packet backend backend_len now owner_slot owner_flow_id =
      if is_long packet then learn (parse_long_header packet) else ok t
    where
      learn : Result LongHeader → Result SessionTable
      learn fault = fault
      learn (err e) = ok t
      learn (ok header) = do
        let dcid_key = session_single_cid_key header.dcid header.dcid_len
        let pair_key = session_cid_key header.dcid header.dcid_len header.scid header.scid_len
        t' ← put_alias t dcid_key (backend t) backend_len now owner_slot owner_flow_id
        put_alias t' pair_key (backend t') backend_len now owner_slot owner_flow_id

  -- `learn_backend_scid`
  unfoldable pub learn_backend_scid :
      SessionTable → List ℕ → Sockaddr → ℕ → ℕ → ℕ → ℕ → Result SessionTable
  learn_backend_scid t packet backend backend_len now owner_slot owner_flow_id =
      if is_long packet then learn (parse_long_header packet) else ok t
    where
      learn : Result LongHeader → Result SessionTable
      learn fault = fault
      learn (err e) = ok t
      learn (ok header) =
          put_alias t (session_single_cid_key header.scid header.scid_len) backend backend_len now
            owner_slot owner_flow_id

  -- Keeps the slot of a session whose backend is one of the configuration's.
  abbrev pub if_configured : RouteTable → SessionTable → Option ℕ → Option ℕ
  if_configured routes t none = none
  if_configured routes t (some i) =
      let session = slot_at t.sessions i in
      if route_table_has_backend hash routes (backend_at session) (backend_len_at session)
      then some i
      else none

  -- `lookup_long_header_request_dcid`
  unfoldable pub lookup_request_dcid : RouteTable → SessionTable → Initial → Option ℕ
  lookup_request_dcid routes t initial =
      if_configured routes t
        (session_table_get hash t (session_single_cid_key initial.dcid initial.dcid_len))

  -- The loop of `lookup_short_header_cid`, from a length down to the shortest one that is learned:
  -- `n` lengths are left, and the next one is `QSR_MIN_LEARNED_CID_LEN + n - 1`.
  unfoldable pub short_cid_loop : ℕ → SessionTable → List ℕ → Result (Option ℕ)
  short_cid_loop zero t packet = ok none
  short_cid_loop (suc n) t packet =
      let shorter = short_cid_loop n t packet in
      let cid_len = min_learned_cid_len + n in
      if not (t.cid_len_mask == 0) && bit_and t.cid_len_mask (2 ^ cid_len) == 0
      then shorter
      else (copy packet 1 cid_len >>= λ cid.
          or_shorter (session_table_get hash t (session_single_cid_key cid cid_len)) shorter)

  -- `lookup_short_header_cid`
  unfoldable pub lookup_short_header_cid : SessionTable → List ℕ → Result (Option ℕ)
  lookup_short_header_cid t packet =
      let max_cid_len = min (length packet - 1) max_quic_cid_len in
      if ltb (length packet) (1 + min_learned_cid_len)
        || (long_bit packet || not (fixed_bit packet))
      then ok none
      else short_cid_loop (max_cid_len + 1 - min_learned_cid_len) t packet

  -- `lookup_long_header_dcid`
  unfoldable pub lookup_long_header_dcid : SessionTable → List ℕ → Result (Option ℕ)
  lookup_long_header_dcid t packet =
      let dcid_len = get_or packet 5 0 in
      if ltb (length packet) 7 || (not (long_bit packet) || not (fixed_bit packet))
      then ok none
      else if not (known_version packet)
      then ok none
      else if ltb dcid_len min_learned_cid_len
          || (ltb max_quic_cid_len dcid_len || leb (length packet) (6 + dcid_len))
      then ok none
      else (copy packet 6 dcid_len >>= λ dcid.
          ok (session_table_get hash t (session_single_cid_key dcid dcid_len)))

-- `try_decode_dcid_server_id`
unfoldable pub try_decode : Cipher → CidCodec → List ℕ → Result ℕ
try_decode cipher codec packet = do
  reject_if (not codec.enabled || ltb (length packet) 1) invalid
  if long_bit packet
      then (do
        reject_if (not (fixed_bit packet) || ltb (length packet) 7) invalid
        dcid_len ← read packet 5
        reject_if (not (dcid_len == cid_encoded_len) || ltb (length packet) (6 + dcid_len)) invalid
        dcid ← copy packet 6 dcid_len
        cid_decode cipher codec dcid)
      else (do
        reject_if (not (fixed_bit packet) || ltb (length packet) (1 + cid_encoded_len)) invalid
        dcid ← copy packet 1 cid_encoded_len
        cid_decode cipher codec dcid)

module _ (hash : List ℕ → ℕ) (cipher : Cipher) where
  -- `lookup_encoded_cid`
  unfoldable pub lookup_encoded_cid :
      Config → SessionTable → List ℕ → SessionKey → ℕ → Result (SessionTable × Option ℕ)
  lookup_encoded_cid config t packet key now =
      if not config.cid_codec.enabled
      then ok (t, none)
      else decoded (try_decode cipher config.cid_codec packet)
    where
      bound : Option (Sockaddr × ℕ) → Result (SessionTable × Option ℕ)
      bound none = ok (t, none)
      bound (some (backend, backend_len)) = do
        t' ← bind_client_tuple hash t key backend backend_len now
        ok (t', session_table_get hash t' key)

      decoded : Result ℕ → Result (SessionTable × Option ℕ)
      decoded fault = fault
      decoded (err e) = ok (t, none)
      decoded (ok server_id) = bound (
          resolved_backend
            (route_at config.routes (route_table_lookup_by_server_id config.routes server_id)))
