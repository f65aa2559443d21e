-- ===== src/Dataplane/Sender.antt =====
-- The queue of outgoing datagrams of src/udp.c.
pub mod Runs
use quic_sni_router.Base.{
  ℕ, zero, suc, List, [], ◌∷◌, ◌++◌, ltb, leb, ◌==◌, if◌then◌else◌, length, take, drop,
}
use quic_sni_router.Sockaddr.{Sockaddr}
use quic_sni_router.Quic.Crypto.{max_datagram_size}

-- `QSR_UDP_BATCH_SIZE`
abbrev pub udp_batch_size : ℕ
udp_batch_size = 64

-- `qsr_udp_send_item_t`, with the bytes that `packet` points to.
pub record SendItem : Type 0 where
  pub packet : List ℕ
  pub dest : Sockaddr
  pub dest_len : ℕ
  pub fd : ℕ

-- `qsr_udp_sender_t`, and the runs that `sender_flush` has handed to `sendmmsg` so far, the latest
-- last.
pub record Sender : Type 0 where
  pub items : List SendItem
  pub flushed : List (List SendItem)

abbrev pub empty_sender : Sender
empty_sender = record { items = []; flushed = [] }

-- The loop that moves `end` over the items with the descriptor of the first one: those items and
-- the rest.
abbrev pub take_run : ℕ → List SendItem → List SendItem × List SendItem
take_run fd [] = ([], [])
take_run fd (item ∷ items) =
    let (run, rest) = take_run fd items in
    if item.fd == fd then (item ∷ run, rest) else ([], item ∷ items)

-- `while (start < sender->count)`: the runs of consecutive equal descriptors.
unfoldable pub runs_loop : ℕ → List SendItem → List (List SendItem)
runs_loop zero items = []
runs_loop (suc fuel) [] = []
runs_loop (suc fuel) (item ∷ items) =
    let (run, rest) = take_run item.fd items in (item ∷ run) ∷ runs_loop fuel rest

-- The runs of a queue. Every pass takes an item at least, so the length is enough fuel.
abbrev pub runs_of : List SendItem → List (List SendItem)
runs_of items = runs_loop (length items) items

-- `sender_flush`
unfoldable pub sender_flush : Sender → Sender
sender_flush s = record { items = []; flushed = s.flushed ++ runs_of s.items }

-- `sender_enqueue`
unfoldable pub sender_enqueue : Sender → ℕ → List ℕ → Sockaddr → ℕ → Sender
sender_enqueue s fd packet dest dest_len =
    let item : SendItem = record { packet = packet; dest = dest; dest_len = dest_len; fd = fd } in
    let room = if leb udp_batch_size (length s.items) then sender_flush s else s in
    if ltb max_datagram_size (length packet)
    then s
    else record room { items = room.items ++ (item ∷ []) }

-- What `sendmmsg` answers: a number of messages sent, a signal (`EINTR`), or another error.
pub data Answer : Type 0 where
  accepted : ℕ → Answer
  interrupted refused : Answer

-- `while (sent < end)`: the items of a run that the kernel took, by its answers in turn.
unfoldable pub send_run : List Answer → List SendItem → List SendItem
send_run answers [] = []
send_run [] (item ∷ items) = []
send_run (interrupted ∷ answers) (item ∷ items) = send_run answers (item ∷ items)
send_run (refused ∷ answers) (item ∷ items) = []
send_run (accepted n ∷ answers) (item ∷ items) =
    let later = send_run answers (drop n (item ∷ items)) in
    if n == 0 then [] else take n (item ∷ items) ++ later
