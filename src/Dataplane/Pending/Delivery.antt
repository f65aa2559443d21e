-- ===== src/Dataplane/Pending/Delivery.antt =====
-- What a lookup in the table of pending Initials delivers.
use quic_sni_router.Base.{
  ℕ, zero, suc, ◌+◌, ◌%◌, ◌^◌, ◌<◌, ◌≡◌, refl, ap, ◌≢◌, ◌⊎◌, inl, inr, Bool, true, false, Option,
  none, some, List, [], ◌∷◌, arith, ==_refl, Bool-cases, length, set, take, length-set,
  get_or-set_self, get_or-set_ne, same_bytes_refl,
}
use quic_sni_router.Sockaddr.{Sockaddr}
use quic_sni_router.Quic.Initial.{Initial}
use quic_sni_router.Quic.CryptoStream.{crypto_stream_init}
use quic_sni_router.Session.Key.{session_cid_key}
use quic_sni_router.Dataplane.Pending.{
  Pending, PendingTable, pending_capacity, pending_initial_matches, holds_match, is_free,
  find_entry, new_entry, touched, get_new, get_or_new, pending_initial_get,
}
use quic_sni_router.Probe.{slot_at}

-- Where a loop over the entries stops.
find_entry_lem :
    (test : Option Pending → Bool) (entries : List (Option Pending)) (i k : ℕ)
    → find_entry test entries i ≡ some k
    → (d : ℕ) × (k ≡ i + d) × (d < length entries) × (test (slot_at entries d) ≡ true)
unfolding find_entry
find_entry_lem test [] i k h = cc
find_entry_lem test (entry ∷ entries) i k h = elim (Bool-cases (test entry)) [
  | inl here ↦
      let found : some i ≡ some k = rw here at h in
      let e : i ≡ k = cc in (0, omega arith, omega arith, here)
  | inr other ↦
      let (d, at, inside, good) = find_entry_lem test entries (i + 1) k (rw other at h) in
      (suc d, omega arith, omega arith, good)
]

take-take : (n : ℕ) (xs : List ℕ) → take n (take n xs) ≡ take n xs
take-take zero xs = refl
take-take (suc n) [] = refl
take-take (suc n) (x ∷ xs) = ap (λ t. x ∷ t) (take-take n xs)

new_entry-matches :
    (source : Sockaddr) (source_len : ℕ) (initial : Initial) (now : ℕ)
    → pending_initial_matches source source_len initial (new_entry source source_len initial now)
      ≡ true
unfolding pending_initial_matches new_entry
new_entry-matches source source_len initial now =
    rw
      (
        ==_refl source_len,
        ==_refl initial.dcid_len,
        ==_refl initial.scid_len,
        take-take initial.dcid_len initial.dcid,
        take-take initial.scid_len initial.scid,
        same_bytes_refl (take source_len source),
        same_bytes_refl (take initial.dcid_len initial.dcid),
        same_bytes_refl (take initial.scid_len initial.scid),
      )
      refl

written :
    (entries : List (Option Pending)) (i : ℕ) (entry : Option Pending)
    → i < length entries
    → (slot_at (set entries i entry) i ≡ entry)
      × (length (set entries i entry) ≡ length entries)
      × ((j : ℕ) → i ≢ j → slot_at (set entries i entry) j ≡ slot_at entries j)
written entries i entry inside = (
  get_or-set_self entries i entry none inside,
  length-set entries i entry,
  λ j other. get_or-set_ne entries i j entry none other,
)

-- No entry of the table passes a test.
abbrev pub NoEntry : (Option Pending → Bool) → PendingTable → Type 0
NoEntry test t = (j : ℕ) → j < length t.entries → test (slot_at t.entries j) ≡ false

-- An entry of this source and these ids that has collected nothing yet and is seen now.
pub record IsNew (source : Sockaddr) (source_len : ℕ) (initial : Initial) (now : ℕ)
    (entry : Pending) : Type 0 where
  pub no_packets : entry.packets ≡ []
  pub no_crypto : entry.crypto ≡ crypto_stream_init
  pub under_source : entry.source ≡ source
  pub under_cids :
      entry.cid_key ≡ session_cid_key initial.dcid initial.dcid_len initial.scid initial.scid_len
  pub matches : pending_initial_matches source source_len initial entry ≡ true
  pub seen : entry.last_seen ≡ now

-- Where the entry at an index comes from: it matched and keeps what it has collected, or it is new in
-- a free place, or it is new in the place that is next in turn where all are taken.
abbrev pub Origin : PendingTable → Sockaddr → ℕ → Initial → ℕ → PendingTable → ℕ → Pending → Type 0
Origin t source source_len initial now t' i entry =
    ((old : Pending) × (slot_at t.entries i ≡ some old)
      × (pending_initial_matches source source_len initial old ≡ true)
      × (entry ≡ record old { last_seen = now })
      × (t'.next_evict ≡ t.next_evict))
    ⊎ (NoEntry (holds_match source source_len initial) t
        × IsNew source source_len initial now entry
        × (((slot_at t.entries i ≡ none) × (t'.next_evict ≡ t.next_evict))
            ⊎ (NoEntry is_free t
                × (i ≡ t.next_evict % pending_capacity)
                × (t'.next_evict ≡ (t.next_evict + 1) % 2 ^ 64))))

-- An entry at an index of the table, and no other one changed.
abbrev pub Delivers : PendingTable → Sockaddr → ℕ → Initial → ℕ → PendingTable × ℕ → Type 0
Delivers t source source_len initial now (t', i) =
    (entry : Pending) × (slot_at t'.entries i ≡ some entry)
    × (i < length t.entries)
    × (length t'.entries ≡ length t.entries)
    × ((j : ℕ) → i ≢ j → slot_at t'.entries j ≡ slot_at t.entries j)
    × Origin t source source_len initial now t' i entry

find_entry-none :
    (test : Option Pending → Bool) (entries : List (Option Pending)) (i : ℕ)
    → find_entry test entries i ≡ none
    → (j : ℕ) → j < length entries
    → test (slot_at entries j) ≡ false
unfolding find_entry
find_entry-none test [] i h j low = absurd (omega arith)
find_entry-none test (entry ∷ entries) i h j low = elim (Bool-cases (test entry)) [
  | inl here ↦ let clash : some i ≡ none = rw here at h in absurd (cc)
  | inr other ↦ beyond j low other (find_entry-none test entries (i + 1) (rw other at h))
]
  where
    beyond :
        (n : ℕ)
        → n < length (entry ∷ entries)
        → test entry ≡ false
        → ((m : ℕ) → m < length entries → test (slot_at entries m) ≡ false)
        → test (slot_at (entry ∷ entries) n) ≡ false
    beyond zero low here later = here
    beyond (suc n) low here later = later n (omega arith)

is_free-slot : (held : Option Pending) → is_free held ≡ true → held ≡ none
is_free-slot none h = refl
is_free-slot (some entry) h = cc

-- A lookup of a pending Initial in a table of 64 entries returns the index of an entry in use. If an
-- entry matches the source and the ids of the Initial, that is such an entry, and it keeps its packets
-- and its stream and is seen now. Otherwise it is a new entry without packets or stream, under the
-- source and the ids and seen now, in a free place, or, where no place is free, in the one that is next
-- in turn, and the turn moves on. No other entry changes.
pub pending_initial_get_lem :
    (t : PendingTable) (source : Sockaddr) (source_len : ℕ) (initial : Initial) (now : ℕ)
    → length t.entries ≡ pending_capacity
    → Delivers t source source_len initial now (pending_initial_get t source source_len initial now)
unfolding pending_initial_get new_entry pending_initial_matches
pending_initial_get_lem t source source_len initial now sized =
    matched (find_entry (holds_match source source_len initial) t.entries 0) refl
  where
    entry : Pending
    entry = new_entry source source_len initial now

    entry-IsNew : IsNew source source_len initial now entry
    entry-IsNew = record {
      no_packets = refl;
      no_crypto = refl;
      under_source = refl;
      under_cids = refl;
      matches = new_entry-matches source source_len initial now;
      seen = refl;
    }

    vacant :
        NoEntry (holds_match source source_len initial) t
        → (found : Option ℕ) → find_entry is_free t.entries 0 ≡ found
        → Delivers t source source_len initial now (get_new t found entry)
    vacant unmatched (some i) at =
        let (d, e, low, free) = find_entry_lem is_free t.entries 0 i at in
        let same : d ≡ i = omega arith in
        let inside : i < length t.entries = omega arith in
        let (there, size, others) = written t.entries i (some entry) inside in
        (
          entry,
          there,
          inside,
          size,
          others,
          inr (
            unmatched,
            entry-IsNew,
            inl (is_free-slot (slot_at t.entries i) (rw same at free), refl),
          ),
        )
    vacant unmatched none at =
        let i = t.next_evict % pending_capacity in
        let inside : i < length t.entries = omega arith in
        let (there, size, others) = written t.entries i (some entry) inside in
        (
          entry,
          there,
          inside,
          size,
          others,
          inr (unmatched, entry-IsNew, inr (find_entry-none is_free t.entries 0 at, refl, refl)),
        )

    known :
        (i : ℕ) (held : Option Pending)
        → slot_at t.entries i ≡ held
        → i < length t.entries
        → holds_match source source_len initial held ≡ true
        → Delivers t source source_len initial now
            (record t { entries = set t.entries i (touched (slot_at t.entries i) now) }, i)
    known i none e inside good = cc
    known i (some old) e inside good =
        let new : Pending = record old { last_seen = now } in
        let (there, size, others) = written t.entries i (some new) inside in
        rw e (new, there, inside, size, others, inl (old, refl, good, refl, refl))

    matched :
        (found : Option ℕ)
        → find_entry (holds_match source source_len initial) t.entries 0 ≡ found
        → Delivers t source source_len initial now (get_or_new t found entry now)
    matched none at =
        vacant (find_entry-none (holds_match source source_len initial) t.entries 0 at)
          (find_entry is_free t.entries 0) refl
    matched (some i) at =
        let (d, e, inside, good) =
          find_entry_lem (holds_match source source_len initial) t.entries 0 i at in
        let same : d ≡ i = omega arith in
        known i (slot_at t.entries i) refl (omega arith) (rw same at good)
