-- ===== src/Dataplane/Receive.antt =====
-- The reception of datagrams in src/udp.c: the split of coalesced messages, and their handling.
pub mod Split
use quic_sni_router.Base.{
  ℕ, zero, suc, ◌*◌, ◌%◌, ◌^◌, min, Bool, ◌||◌, Option, none, some, List, [], ◌∷◌, ok, ltb, ◌==◌,
  if◌then◌else◌, length, take, drop, Result, ◌>>=◌,
}
use quic_sni_router.Sockaddr.{Sockaddr}
use quic_sni_router.Quic.Crypto.{max_datagram_size}
use quic_sni_router.Dataplane.Sender.{udp_batch_size, sender_flush}
use quic_sni_router.Dataplane.State.{Dataplane, World}
use quic_sni_router.Dataplane.Client.{handle_client_packet, handle_backend_packet}

-- `QSR_UDP_RECV_BUFFER_SIZE`
abbrev pub recv_buffer_size : ℕ
recv_buffer_size = 16 * 1024

-- What `recvmmsg` leaves in a slot: the bytes, the address, the flag `MSG_TRUNC`, and the segment size
-- of the `UDP_GRO` message where there is one.
pub record Message : Type 0 where
  pub bytes : List ℕ
  pub source : Sockaddr
  pub source_len : ℕ
  pub truncated_flag : Bool
  pub gro_size : Option ℕ

-- The size of the segments; the `UDP_GRO` value is a `uint16_t`, and 0 is passed over.
abbrev pub segment_size : ℕ → Option ℕ → ℕ
segment_size msg_len none = msg_len
segment_size msg_len (some gso) = if ltb 0 (gso % 2 ^ 16) then gso % 2 ^ 16 else msg_len

-- `for (offset = 0; offset < msg_len;)`: the datagrams of a message.
unfoldable pub split_loop : ℕ → ℕ → List ℕ → List (List ℕ)
split_loop zero size bytes = []
split_loop (suc fuel) size [] = []
split_loop (suc fuel) size (b ∷ bytes) =
    let chunk = min (length (b ∷ bytes)) size in
    take chunk (b ∷ bytes) ∷ split_loop fuel size (drop chunk (b ∷ bytes))

-- The datagrams that `drain_socket` takes out of a slot. Every pass takes a byte at least, so the
-- length is enough fuel.
unfoldable pub split_message : Message → List (List ℕ)
split_message m =
    let msg_len = length m.bytes in
    let size = segment_size msg_len m.gro_size in
    if msg_len == 0 || ltb recv_buffer_size msg_len
    then []
    else if m.truncated_flag
    then []
    else if ltb max_datagram_size size
    then []
    else split_loop msg_len size m.bytes

-- Where a datagram came in: on the listening socket, or on that of a flow.
pub data Arrival : Type 0 where
  from_client : Arrival
  from_backend : ℕ → Arrival

-- What `recvmmsg` returns: messages and the time at which they came, a signal (`EINTR`), or another
-- error.
pub data Received : Type 0 where
  received : ℕ → List Message → Received
  signalled nothing : Received

module _ (world : World) where
  -- One datagram, by where it came in.
  abbrev pub handle_datagram : Arrival → Message → ℕ → Dataplane → List ℕ → Result Dataplane
  handle_datagram from_client m now dp packet =
      handle_client_packet world dp packet m.source m.source_len now
  handle_datagram (from_backend slot) m now dp packet =
      handle_backend_packet world dp slot packet now

  -- The datagrams of a message in turn.
  abbrev pub handle_all : Arrival → Message → ℕ → Dataplane → List (List ℕ) → Result Dataplane
  handle_all arrival m now dp [] = ok dp
  handle_all arrival m now dp (packet ∷ packets) =
      handle_datagram arrival m now dp packet >>= λ dp'. handle_all arrival m now dp' packets

  -- `for (i = 0; i < received_count; i++)`
  abbrev pub handle_messages : Arrival → ℕ → Dataplane → List Message → Result Dataplane
  handle_messages arrival now dp [] = ok dp
  handle_messages arrival now dp (m ∷ messages) =
      handle_all arrival m now dp (split_message m) >>= λ dp'.
      handle_messages arrival now dp' messages

  -- A round of `drain_socket` behind `recvmmsg`: the messages, and the flush.
  unfoldable pub drain_round : Arrival → ℕ → Dataplane → List Message → Result Dataplane
  drain_round arrival now dp messages = do
    dp' ← handle_messages arrival now dp messages
    ok (record dp' { sender = sender_flush dp'.sender })

  -- `drain_socket`: at most the given number of rounds, by what `recvmmsg` returns in each.
  unfoldable pub drain_rounds : ℕ → Arrival → Dataplane → List Received → Result Dataplane
  drain_rounds zero arrival dp answers = ok dp
  drain_rounds (suc rounds) arrival dp [] = ok dp
  drain_rounds (suc rounds) arrival dp (nothing ∷ answers) = ok dp
  drain_rounds (suc rounds) arrival dp (signalled ∷ answers) =
      drain_rounds rounds arrival dp answers
  drain_rounds (suc rounds) arrival dp (received now messages ∷ answers) =
      drain_round arrival now dp messages >>= λ dp'.
      if ltb (length messages) udp_batch_size
      then ok dp'
      else drain_rounds rounds arrival dp' answers

-- `QSR_RECV_ROUNDS_PER_EVENT`
abbrev pub recv_rounds_per_event : ℕ
recv_rounds_per_event = 4
