-- ===== src/Session/Table.antt =====
-- The table and its insertion, lookup, deletion and eviction.
pub mod Lookup
pub mod Insertion
use quic_sni_router.Base.{
  ℕ, zero, suc, ◌+◌, ◌-◌, ◌*◌, ◌%◌, ◌^◌, bit_or, Bool, true, false, not, ◌&&◌, ◌||◌, Option, none,
  some, List, ok, fault, invalid, full, ltb, leb, ◌==◌, if◌then◌else◌, set, replicate, Status,
  Result, ◌>>=◌, ◌>>◌, reject_if,
}
use quic_sni_router.Sockaddr.{Sockaddr, is_inet}
use quic_sni_router.Quic.LongHeader.{max_quic_cid_len}
use quic_sni_router.Session.Key.{min_learned_cid_len, SessionKey, key_valid, key_hash, key_equals}
use quic_sni_router.Probe
use quic_sni_router.Probe.{Found, hit, empty, exhausted, slot_at, probe}

-- `qsr_session_t` of a slot in use. A slot that is not in use is all zero, and is `none`. Times are
-- seconds of a monotonic clock.
pub record Session : Type 0 where
  pub key : SessionKey
  pub backend_addr : Sockaddr
  pub backend_addr_len : ℕ
  pub last_seen : ℕ
  pub owner_slot : ℕ
  pub owner_flow_id : ℕ

-- `qsr_session_table_t`
pub record SessionTable : Type 0 where
  pub sessions : List (Option Session)
  pub capacity : ℕ
  pub count : ℕ
  pub expire_cursor : ℕ
  pub evict_cursor : ℕ
  pub cid_len_mask : ℕ
  pub cid_len_mask_pending : ℕ

abbrev pub evict_scan_budget : ℕ
evict_scan_budget = 4096

abbrev pub pressure_evict_min_capacity : ℕ
pressure_evict_min_capacity = 1024

abbrev pub pressure_evict_load_percent : ℕ
pressure_evict_load_percent = 90

-- `qsr_session_table_init`, where `calloc` has the memory.
unfoldable pub session_table_init : ℕ → Result SessionTable
session_table_init capacity = do
  reject_if (capacity == 0) invalid
  ok (record {
    sessions = replicate capacity none;
    capacity = capacity;
    count = 0;
    expire_cursor = 0;
    evict_cursor = 0;
    cid_len_mask = 0;
    cid_len_mask_pending = 0;
  })

-- `backend_valid`
abbrev pub backend_valid : Sockaddr → ℕ → Bool
backend_valid = is_inet

abbrev pub holds_key : SessionKey → Session → Bool
holds_key key session = key_equals session.key key

-- The bit that a key with a learnable DCID length adds to the masks, or 0.
abbrev pub cid_len_bit : SessionKey → ℕ
cid_len_bit key =
    if key.has_cids && (leb min_learned_cid_len key.dcid_len && leb key.dcid_len max_quic_cid_len)
    then 2 ^ key.dcid_len
    else 0

module _ (hash : List ℕ → ℕ) where
  -- The walk of `qsr_session_table_get` and of the insertion.
  unfoldable pub find_key : SessionTable → SessionKey → Found
  find_key t key = Probe.probe (holds_key key) t.sessions t.capacity (key_hash hash key t.capacity)

  -- `qsr_session_table_get`: the index of the session.
  unfoldable pub session_table_get : SessionTable → SessionKey → Option ℕ
  session_table_get t key =
      if t.capacity == 0 || not (key_valid key)
      then none
      else elim (find_key t key) [ hit pos ↦ some pos | empty pos ↦ none | exhausted ↦ none ]

-- The writes of the insertion into an empty slot.
unfoldable pub insert_session : SessionTable → ℕ → Session → SessionTable
insert_session t pos session = record t {
  sessions = set t.sessions pos (some session);
  count = t.count + 1;
  cid_len_mask = bit_or t.cid_len_mask (cid_len_bit session.key);
  cid_len_mask_pending = bit_or t.cid_len_mask_pending (cid_len_bit session.key);
}

-- The writes of an update in place: an owner is replaced by an owner only.
unfoldable pub update_session : Session → Session → Session
update_session old session = record old {
  backend_addr = session.backend_addr;
  backend_addr_len = session.backend_addr_len;
  last_seen = session.last_seen;
  owner_slot = if session.owner_flow_id == 0 then old.owner_slot else session.owner_slot;
  owner_flow_id = if session.owner_flow_id == 0 then old.owner_flow_id else session.owner_flow_id;
}

unfoldable pub update_at : SessionTable → ℕ → Session → SessionTable
update_at t pos session = elim (Probe.slot_at t.sessions pos) [
  | some old ↦ record t { sessions = set t.sessions pos (some (update_session old session)) }
  | none ↦ t
]

-- `pressure_evict_needed`
unfoldable pub pressure_evict_needed : SessionTable → Bool
pressure_evict_needed t =
    leb pressure_evict_min_capacity t.capacity
    && leb (t.capacity * pressure_evict_load_percent) (t.count * 100)

-- The loop of `evict_oldest` over `scans` slots from the cursor on: the victim so far, with its
-- `last_seen`.
unfoldable pub oldest_loop : SessionTable → ℕ → ℕ → Option (ℕ × ℕ) → Option (ℕ × ℕ)
oldest_loop t zero i victim = victim
oldest_loop t (suc n) i victim =
    let index = (t.evict_cursor + i) % t.capacity in
    let next : Option (ℕ × ℕ) = elim (Probe.slot_at t.sessions index) [
      | none ↦ victim
      | some s ↦ elim victim [
        | none ↦ some (index, s.last_seen)
        | some (v, oldest) ↦
            if ltb s.last_seen oldest then some (index, s.last_seen) else some (v, oldest)
      ]
    ] in
    oldest_loop t n (i + 1) next

-- What an insertion returns beside the table: `none` for `QSR_OK`.
abbrev pub PutStatus : Type 0
PutStatus = Option Status

-- The type of `session_table_put_internal`, with whether it may evict under pressure.
abbrev pub Put : Type 0
Put = SessionTable → Session → Bool → Result (SessionTable × PutStatus)

-- The loop of `table_delete_at`: take out the entry at the cursor and put it back, until the cursor
-- meets an empty slot.
unfoldable pub reinsert_loop : Put → ℕ → SessionTable → ℕ → Result SessionTable
reinsert_loop put zero t cursor = fault
reinsert_loop put (suc fuel) t cursor = elim (Probe.slot_at t.sessions cursor) [
  | none ↦ ok t
  | some saved ↦ do
    (t', status) ←
        put (record t { sessions = set t.sessions cursor none; count = t.count - 1 }) saved false
    reinsert_loop put fuel t' ((cursor + 1) % t.capacity)
]

-- Fuel for that loop, a bound of the rounds that any table needs: each round either moves an entry
-- nearer to its home, or leaves the table as it is and brings the cursor nearer to an empty slot.
abbrev pub reinsert_fuel : ℕ → ℕ
reinsert_fuel capacity = capacity * capacity * capacity + capacity + 1

-- `table_delete_at`
unfoldable pub delete_at : Put → SessionTable → ℕ → Result SessionTable
delete_at put t index =
    reinsert_loop put (reinsert_fuel t.capacity)
      (record t { sessions = set t.sessions index none; count = t.count - 1 })
      ((index + 1) % t.capacity)

-- `evict_oldest`
unfoldable pub evict_oldest : Put → SessionTable → Result SessionTable
evict_oldest put t =
    let scans = if ltb t.capacity evict_scan_budget then t.capacity else evict_scan_budget in
    let moved : SessionTable = record t { evict_cursor = (t.evict_cursor + scans) % t.capacity } in
    if t.count == 0 then ok t else elim (oldest_loop t scans 0 none) [
      | none ↦ ok moved
      | some (victim, _) ↦ delete_at put moved victim
    ]

module _ (hash : List ℕ → ℕ) where
  -- The walk of one attempt. `none` beside the table: the attempt ended without an insertion. Under
  -- pressure the first attempt evicts before it gives up.
  unfoldable pub put_attempt :
      Put → Bool → SessionTable → Session → Bool → Result (SessionTable × Option PutStatus)
  put_attempt put first t session allow = elim (find_key hash t session.key) [
    | empty pos ↦
        if allow && (first && pressure_evict_needed t)
        then (do t' ← evict_oldest put t; ok (t', none))
        else ok (insert_session t pos session, some none)
    | hit pos ↦ ok (update_at t pos session, some none)
    | exhausted ↦ ok (t, none)
  ]

  -- The two attempts. The first one ends with an eviction, whatever made it give up: after an
  -- eviction under pressure `break` leads there too.
  unfoldable pub put_attempts :
      Put → SessionTable → Session → Bool → Result (SessionTable × PutStatus)
  put_attempts put t session allow = do
    (t1, done) ← put_attempt put true t session allow
    elim done [
      | some status ↦ ok (t1, status)
      | none ↦ do
        t2 ← evict_oldest put t1
        (t3, done') ← put_attempt put false t2 session allow
        elim done' [ some status ↦ ok (t3, status) | none ↦ ok (t3, some full) ]
    ]

  -- `session_table_put_internal`. An eviction deletes, and a deletion puts entries back, so the
  -- function calls itself; the number bounds how deep.
  unfoldable pub put_internal : ℕ → Put
  put_internal zero t session allow = fault
  put_internal (suc depth) t session allow =
      let put : Put = put_internal depth in
      if t.capacity == 0
        || (not (key_valid session.key)
            || not (backend_valid session.backend_addr session.backend_addr_len))
      then ok (t, some invalid)
      else put_attempts put t session allow

  -- `qsr_session_table_put_owned`; `qsr_session_table_put` is the same with the owner 0, 0.
  unfoldable pub session_table_put : SessionTable → Session → Result (SessionTable × PutStatus)
  session_table_put t session = put_internal 2 t session true
