-- ===== src/Dataplane/Fresh.antt =====
-- A datagram of src/udp.c from an unknown source: the route of an Initial, and a new connection.
use quic_sni_router.Base.{
  ℕ, Option, none, some, List, [], ◌∷◌, ok, err, fault, invalid, truncated, not_found, ltb, ◌==◌,
  if◌then◌else◌, length, option_read, copy, Status, Result, reject_if, ◌>>=◌, ◌>>◌,
}
use quic_sni_router.Sockaddr.{Sockaddr}
use quic_sni_router.Quic.Initial.{Initial}
use quic_sni_router.Quic.CryptoStream.{
  CryptoStream, crypto_stream_init, crypto_stream_merge, crypto_stream_contiguous_len,
}
use quic_sni_router.Quic.Frames.{extract_crypto}
use quic_sni_router.Quic.Crypto.{decrypt_initial}
use quic_sni_router.Tls.ClientHello.{client_hello_sni}
use quic_sni_router.Session.Key.{SessionKey}
use quic_sni_router.Session.Table.{SessionTable, session_table_put}
use quic_sni_router.Route.Table.{Route, route_table_lookup}
use quic_sni_router.Config.Sections.{Config}
use quic_sni_router.Flow.Table.{FlowTable, Flow}
use quic_sni_router.Dataplane.Sender.{Sender, sender_flush, sender_enqueue}
use quic_sni_router.Dataplane.Pending.{
  Pending, PendingTable, set_entry, pending_initial_get, pending_initial_remove, append_packet,
}
use quic_sni_router.Dataplane.Lookup.{route_at, put_alias, learn_client_cids}
use quic_sni_router.Dataplane.Acquire.{flow_acquire}
use quic_sni_router.Probe.{slot_at}
use quic_sni_router.Dataplane.State.{Dataplane, World, min_initial_datagram_size, flow_at}

-- The packets of a pending entry, handed to the sender one by one.
abbrev pub enqueue_all : Sender → ℕ → List (List ℕ) → Sockaddr → ℕ → Sender
enqueue_all s fd [] dest dest_len = s
enqueue_all s fd (packet ∷ packets) dest dest_len =
    enqueue_all (sender_enqueue s fd packet dest dest_len) fd packets dest dest_len

module _ (world : World) where
  -- `route_crypto_stream`: the backend.
  unfoldable pub route_crypto_stream : Config → CryptoStream → Result (Sockaddr × ℕ)
  route_crypto_stream config crypto = do
    let contiguous_len = crypto_stream_contiguous_len crypto
    reject_if (contiguous_len == 0) truncated
    hello ← copy crypto.bytes 0 contiguous_len
    sni ← client_hello_sni hello
    of_route (route_at config.routes (route_table_lookup world.hash config.routes sni))
    where
      of_route : Option Route → Result (Sockaddr × ℕ)
      of_route none = err not_found
      of_route (some route) =
          if route.backend_resolved
          then ok (route.backend_addr, route.backend_addr_len)
          else err invalid

  -- The part of `route_initial_datagram` behind the decryption and the frames: the pending entry that
  -- collects the stream, its index and the backend.
  unfoldable pub collect_initial :
      Config
      → PendingTable
      → List ℕ
      → Initial
      → Sockaddr
      → ℕ
      → ℕ
      → CryptoStream
      → PendingTable × Result (ℕ × Sockaddr × ℕ)
  collect_initial config pending packet initial source source_len now crypto =
      collected (pending_initial_get pending source source_len initial now)
    where
      grown : Pending → Pending
      grown entry =
          let appended = append_packet entry packet in
          record appended { crypto = crypto_stream_merge appended.crypto crypto }

      merged : PendingTable → ℕ → Option Pending → PendingTable × Result (ℕ × Sockaddr × ℕ)
      merged t i none = (t, fault)
      merged t i (some entry) = (
        set_entry t i (grown entry),
        (route_crypto_stream config (grown entry).crypto >>= λ backend.
            ok (i, backend.0, backend.1)),
      )

      collected : PendingTable × ℕ → PendingTable × Result (ℕ × Sockaddr × ℕ)
      collected (t, i) = merged t i (slot_at t.entries i)

  -- `route_initial_datagram`: the pending table, and the index of the entry with the backend.
  unfoldable pub route_initial_datagram :
      Config
      → PendingTable
      → List ℕ
      → Initial
      → Sockaddr
      → ℕ
      → ℕ
      → PendingTable × Result (ℕ × Sockaddr × ℕ)
  route_initial_datagram config pending packet initial source source_len now = extracted (
      decrypt_initial world.ssl packet initial >>= λ plaintext.
      crypto_of (extract_crypto plaintext crypto_stream_init))
    where
      crypto_of : CryptoStream × Result (Unit {0}) → Result CryptoStream
      crypto_of (crypto, status) = status >> ok crypto

      extracted : Result CryptoStream → PendingTable × Result (ℕ × Sockaddr × ℕ)
      extracted fault = (pending, fault)
      extracted (err e) = (pending, err e)
      extracted (ok crypto) =
          collect_initial config pending packet initial source source_len now crypto

  -- The end of a fresh connection: the flow, the session, the aliases, and the packets that waited.
  unfoldable pub open_connection :
      Dataplane → List ℕ → SessionKey → ℕ → ℕ → Pending → Sockaddr → ℕ → ℕ → Result Dataplane
  open_connection dp packet key slot index entry backend backend_len now = do
    flow ← flow_at dp.flows slot
    (sessions, status) ← session_table_put world.hash dp.sessions (record {
      key = key;
      backend_addr = backend;
      backend_addr_len = backend_len;
      last_seen = now;
      owner_slot = slot;
      owner_flow_id = flow.id;
    })
    installed flow sessions status
    where
      installed : Flow → SessionTable → Option Status → Result Dataplane
      installed flow sessions (some e) = ok (record dp { sessions = sessions })
      installed flow sessions none = do
        aliased ← put_alias world.hash sessions entry.cid_key backend backend_len now slot flow.id
        learned ←
            learn_client_cids world.hash aliased packet (λ t. backend) backend_len now slot flow.id
        ok (record dp {
          sessions = learned;
          sender = sender_flush (enqueue_all dp.sender flow.fd entry.packets backend backend_len);
          pending = pending_initial_remove dp.pending index;
        })

  -- A datagram from an unknown source.
  unfoldable pub handle_unknown :
      Dataplane → List ℕ → Sockaddr → ℕ → SessionKey → Result Initial → ℕ → Result Dataplane
  handle_unknown dp packet source source_len key (ok initial) now =
      if ltb (length packet) min_initial_datagram_size
      then ok dp
      else routed (route_initial_datagram dp.config dp.pending packet initial source source_len now)
    where
      acquired : PendingTable → ℕ → Sockaddr → ℕ → FlowTable × Option ℕ → Result Dataplane
      acquired pending index backend backend_len (flows, none) =
          ok (record dp { pending = pending; flows = flows })
      acquired pending index backend backend_len (flows, some slot) = do
        entry ← option_read (slot_at pending.entries index)
        open_connection (record dp { pending = pending; flows = flows }) packet key slot index entry
            backend backend_len now

      routed : PendingTable × Result (ℕ × Sockaddr × ℕ) → Result Dataplane
      routed (pending, fault) = fault
      routed (pending, err e) = ok (record dp { pending = pending })
      routed (pending, ok (index, backend, backend_len)) =
          flow_acquire world.hash world.kernel dp.flows source source_len backend backend_len now
          >>= acquired pending index backend backend_len
  handle_unknown dp packet source source_len key (err e) now = ok dp
  handle_unknown dp packet source source_len key fault now = fault
