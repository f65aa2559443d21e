-- ===== src/Dataplane/Pending.antt =====
-- The Initials of src/udp.c that wait for the rest of their ClientHello.
pub mod Bounds
pub mod Delivery
use quic_sni_router.Base.{
  ℕ, ◌+◌, ◌%◌, ◌^◌, Bool, true, false, ◌&&◌, ◌||◌, Option, none, some, List, [], ◌∷◌, ◌++◌, map,
  ltb, leb, ◌==◌, if◌then◌else◌, length, set, take, replicate, same_bytes,
}
use quic_sni_router.Sockaddr.{Sockaddr}
use quic_sni_router.Quic.Initial.{Initial}
use quic_sni_router.Quic.CryptoStream.{CryptoStream, crypto_stream_init}
use quic_sni_router.Quic.Crypto.{max_datagram_size}
use quic_sni_router.Session.Key.{SessionKey, session_cid_key}
use quic_sni_router.Probe.{slot_at}

-- `QSR_PENDING_INITIAL_CAPACITY`
abbrev pub pending_capacity : ℕ
pending_capacity = 64

-- `QSR_PENDING_INITIAL_MAX_PACKETS`
abbrev pub pending_max_packets : ℕ
pending_max_packets = 8

-- `QSR_PENDING_INITIAL_IDLE_SECONDS`
abbrev pub pending_idle_seconds : ℕ
pending_idle_seconds = 5

-- `qsr_pending_initial_t` of an entry in use; one that is not in use is zero, and is `none`. A packet
-- of the list has its length from `packet_lens`, and `packet_count` is the length of the list.
pub record Pending : Type 0 where
  pub source : Sockaddr
  pub source_len : ℕ
  pub dcid : List ℕ
  pub dcid_len : ℕ
  pub scid : List ℕ
  pub scid_len : ℕ
  pub cid_key : SessionKey
  pub crypto : CryptoStream
  pub packets : List (List ℕ)
  pub last_seen : ℕ

-- `qsr_pending_initial_table_t`
pub record PendingTable : Type 0 where
  pub entries : List (Option Pending)
  pub next_evict : ℕ

-- The zeroed table of the start.
abbrev pub pending_init : PendingTable
pending_init = record { entries = replicate pending_capacity none; next_evict = 0 }

-- `pending_initial_matches`, of an entry in use.
unfoldable pub pending_initial_matches : Sockaddr → ℕ → Initial → Pending → Bool
pending_initial_matches source source_len initial entry =
    (entry.source_len == source_len
      && same_bytes (take source_len entry.source) (take source_len source))
    && ((entry.dcid_len == initial.dcid_len && entry.scid_len == initial.scid_len)
        && (same_bytes (take initial.dcid_len entry.dcid) (take initial.dcid_len initial.dcid)
            && same_bytes (take initial.scid_len entry.scid) (take initial.scid_len initial.scid)))

abbrev pub holds_match : Sockaddr → ℕ → Initial → Option Pending → Bool
holds_match source source_len initial none = false
holds_match source source_len initial (some entry) =
    pending_initial_matches source source_len initial entry

abbrev pub is_free : Option Pending → Bool
is_free none = true
is_free (some entry) = false

-- A loop from the first entry on, to the first one that passes a test.
unfoldable pub find_entry : (Option Pending → Bool) → List (Option Pending) → ℕ → Option ℕ
find_entry test [] i = none
find_entry test (entry ∷ entries) i =
    let later = find_entry test entries (i + 1) in if test entry then some i else later

-- The entry that `pending_initial_get` makes.
unfoldable pub new_entry : Sockaddr → ℕ → Initial → ℕ → Pending
new_entry source source_len initial now = record {
  source = source;
  source_len = source_len;
  dcid = take initial.dcid_len initial.dcid;
  dcid_len = initial.dcid_len;
  scid = take initial.scid_len initial.scid;
  scid_len = initial.scid_len;
  cid_key = session_cid_key initial.dcid initial.dcid_len initial.scid initial.scid_len;
  crypto = crypto_stream_init;
  packets = [];
  last_seen = now;
}

abbrev pub set_entry : PendingTable → ℕ → Pending → PendingTable
set_entry t i entry = record t { entries = set t.entries i (some entry) }

-- `table->entries[i].last_seen = now`
abbrev pub touched : Option Pending → ℕ → Option Pending
touched none now = none
touched (some entry) now = some (record entry { last_seen = now })

-- The second and the third part of `pending_initial_get`: a free entry, or the next one in turn.
-- `next_evict` is a `size_t`.
abbrev pub get_new : PendingTable → Option ℕ → Pending → PendingTable × ℕ
get_new t (some i) entry = (set_entry t i entry, i)
get_new t none entry = (
  record (set_entry t (t.next_evict % pending_capacity) entry) {
    next_evict = (t.next_evict + 1) % 2 ^ 64;
  },
  t.next_evict % pending_capacity,
)

abbrev pub get_or_new : PendingTable → Option ℕ → Pending → ℕ → PendingTable × ℕ
get_or_new t (some i) entry now =
    (record t { entries = set t.entries i (touched (slot_at t.entries i) now) }, i)
get_or_new t none entry now = get_new t (find_entry is_free t.entries 0) entry

-- `pending_initial_get`: the table and the index of the entry.
unfoldable pub pending_initial_get : PendingTable → Sockaddr → ℕ → Initial → ℕ → PendingTable × ℕ
pending_initial_get t source source_len initial now =
    get_or_new t (find_entry (holds_match source source_len initial) t.entries 0)
      (new_entry source source_len initial now) now

-- `pending_initial_remove`, of an index of the table.
unfoldable pub pending_initial_remove : PendingTable → ℕ → PendingTable
pending_initial_remove t i = record t { entries = set t.entries i none }

abbrev pub expired_entry : ℕ → Option Pending → Option Pending
expired_entry now none = none
expired_entry now (some entry) =
    if leb (entry.last_seen + pending_idle_seconds) now then none else some entry

-- `pending_initial_expire`
unfoldable pub pending_initial_expire : PendingTable → ℕ → PendingTable
pending_initial_expire t now = record t { entries = map (expired_entry now) t.entries }

-- Whether a packet is among those of the entry.
abbrev pub has_packet : List (List ℕ) → List ℕ → Bool
has_packet [] packet = false
has_packet (p ∷ packets) packet = same_bytes p packet || has_packet packets packet

-- `pending_initial_append_packet`
unfoldable pub append_packet : Pending → List ℕ → Pending
append_packet entry packet =
    if ltb max_datagram_size (length packet)
    then entry
    else if has_packet entry.packets packet
    then entry
    else if leb pending_max_packets (length entry.packets)
    then entry
    else record entry { packets = entry.packets ++ (packet ∷ []) }
