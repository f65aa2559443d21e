-- ===== src/Tests/Queues.antt =====
-- The queue of outgoing datagrams, the split of messages and the pending Initials.
use quic_sni_router.Base.{
  List, take, ℕ, ◌≤◌, ◌<◌, ◌≡◌, refl, ◌⊎◌, true, false, none, some, [], ◌∷◌, ◌++◌, arith, ok,
  length, replicate, All,
}
use quic_sni_router.Quic.Initial.{Initial}
use quic_sni_router.Dataplane.Sender.{
  SendItem, Sender, runs_loop, runs_of, sender_flush, sender_enqueue, send_run, Answer, accepted,
  interrupted, refused,
}
use quic_sni_router.Dataplane.Sender.Runs.{
  IsSender, IsQueued, joined_runs, IsRun, sender_flush_lem, taken_count, send_run-take,
  sender_enqueue-IsSender,
}
use quic_sni_router.Dataplane.Pending.{
  Pending, PendingTable, find_entry, pending_initial_matches, pending_max_packets, pending_init,
  new_entry, pending_initial_get, has_packet, append_packet,
}
use quic_sni_router.Dataplane.Pending.Bounds.{IsEntry, append_packet-IsEntry}
use quic_sni_router.Dataplane.Pending.Delivery.{Delivers, pending_initial_get_lem}
use quic_sni_router.Dataplane.Receive.{Message, split_loop, split_message}
use quic_sni_router.Dataplane.Receive.Split.{IsAccepted, IsSplit, split_message-IsSplit}
use quic_sni_router.Dataplane.Listen.{split_listen}
use quic_sni_router.Quic.Crypto.{max_datagram_size}

abbrev item : ℕ → SendItem
item fd = record { packet = fd ∷ 1 ∷ []; dest = replicate 128 0; dest_len = 16; fd = fd }

abbrev some_sender : Sender
some_sender = record { items = item 5 ∷ item 5 ∷ item 6 ∷ []; flushed = [] }

runs_run : runs_of some_sender.items ≡ (item 5 ∷ item 5 ∷ []) ∷ (item 6 ∷ []) ∷ []
unfolding runs_loop
runs_run = refl

sender_flush_lem_example :
    ((sender_flush some_sender).items ≡ [])
    × ((sender_flush some_sender).flushed ≡ some_sender.flushed ++ runs_of some_sender.items)
    × (joined_runs (runs_of some_sender.items) ≡ some_sender.items)
    × All IsRun (runs_of some_sender.items)
sender_flush_lem_example = sender_flush_lem some_sender

-- The third datagram is dropped.
abbrev some_answers : List Answer
some_answers = interrupted ∷ accepted 1 ∷ interrupted ∷ accepted 1 ∷ refused ∷ accepted 1 ∷ []

some_answers_run : send_run some_answers some_sender.items ≡ item 5 ∷ item 5 ∷ []
unfolding send_run
some_answers_run = refl

send_run-take_example :
    send_run some_answers some_sender.items ≡ take (taken_count some_answers) some_sender.items
send_run-take_example = send_run-take some_answers some_sender.items

some_sender-IsSender : IsSender some_sender
some_sender-IsSender = record {
  bounded = omega arith;
  packets_fit = (omega arith, (omega arith, (omega arith, tt)));
}

sender_enqueue-IsSender_example :
    IsSender (sender_enqueue some_sender 6 (6 ∷ 1 ∷ []) (replicate 128 0) 16)
    × (((max_datagram_size < length {A = ℕ} (6 ∷ 1 ∷ []))
          × (sender_enqueue some_sender 6 (6 ∷ 1 ∷ []) (replicate 128 0) 16 ≡ some_sender))
        ⊎ ((length {A = ℕ} (6 ∷ 1 ∷ []) ≤ max_datagram_size)
            × IsQueued some_sender
                (item 6)
                (sender_enqueue some_sender 6 (6 ∷ 1 ∷ []) (replicate 128 0) 16)))
sender_enqueue-IsSender_example =
    sender_enqueue-IsSender some_sender 6 (6 ∷ 1 ∷ []) (replicate 128 0) 16 some_sender-IsSender

abbrev burst : Message
burst = record {
  bytes = 1 ∷ 2 ∷ 3 ∷ 4 ∷ 5 ∷ [];
  source = replicate 128 0;
  source_len = 16;
  truncated_flag = false;
  gro_size = some 2;
}

split_run : split_message burst ≡ (1 ∷ 2 ∷ []) ∷ (3 ∷ 4 ∷ []) ∷ (5 ∷ []) ∷ []
unfolding split_message split_loop
split_run = refl

split_message-IsSplit_example :
    (IsAccepted burst × IsSplit burst (split_message burst))
    ⊎ ((¬ IsAccepted burst) × (split_message burst ≡ []))
split_message-IsSplit_example = split_message-IsSplit burst

split_listen_run :
    split_listen (b'[' ∷ b':' ∷ b':' ∷ b']' ∷ b':' ∷ b'4' ∷ b'4' ∷ b'3' ∷ []) 64 8
    ≡ ok (b'[' ∷ b':' ∷ b':' ∷ b']' ∷ [], b'4' ∷ b'4' ∷ b'3' ∷ [])
unfolding split_listen
split_listen_run = refl

abbrev some_initial : Initial
some_initial = record {
  version = 1;
  dcid = replicate 8 3;
  dcid_len = 8;
  scid = [];
  scid_len = 0;
  token_offset = 16;
  token_len = 0;
  payload_offset = 17;
  payload_len = 40;
  packet_number_offset = 17;
}

abbrev entry : Pending
entry = record (new_entry (replicate 128 0) 16 some_initial 9) {
  packets = (1 ∷ []) ∷ (2 ∷ []) ∷ [];
}

-- The entry is found again, behind an entry that is free.
abbrev waiting : PendingTable
waiting = record pending_init { entries = none ∷ some entry ∷ replicate 62 none }

pending_initial_get_run : (pending_initial_get waiting (replicate 128 0) 16 some_initial 11).1 ≡ 1
unfolding pending_initial_get find_entry pending_initial_matches new_entry
pending_initial_get_run = refl

pending_initial_get_lem_example :
    Delivers waiting
      (replicate 128 0)
      16
      some_initial
      11
      (pending_initial_get waiting (replicate 128 0) 16 some_initial 11)
pending_initial_get_lem_example =
    pending_initial_get_lem waiting (replicate 128 0) 16 some_initial 11 refl

entry-IsEntry : IsEntry entry
entry-IsEntry = record {
  few = omega arith;
  fit = (omega arith, (omega arith, tt));
  distinct = (refl, (refl, tt));
}

append_packet-IsEntry_example :
    IsEntry (append_packet entry (3 ∷ []))
    × (length {A = ℕ} (3 ∷ []) ≤ max_datagram_size
        → length entry.packets < pending_max_packets
        → has_packet (append_packet entry (3 ∷ [])).packets (3 ∷ []) ≡ true)
append_packet-IsEntry_example = append_packet-IsEntry entry (3 ∷ []) entry-IsEntry
