-- ===== src/Tests/Tables.antt =====
-- Open-addressed tables.
use quic_sni_router.Base.{
  ℕ, ◌%◌, ◌≡◌, refl, ◌≢◌, true, false, Option, none, some, List, [], ◌∷◌, arith, ok, ◌==◌, length,
  replicate,
}
use quic_sni_router.Flow.Table.{Flow, FlowTable}
use quic_sni_router.Flow.Operations.{flow_table_slot}
use quic_sni_router.Runtime.{keepalive_flow, session_keepalive}
use quic_sni_router.Runtime.Keepalive.{KeptBy, session_keepalive-KeptBy}
use quic_sni_router.Session.Key.{
  SessionKey, key_valid, serialize, key_hash, key_equals, session_cid_key, session_single_cid_key,
}
use quic_sni_router.Session.Key.Equality.{key_equals-serialize}
use quic_sni_router.Session.Table.{
  Session, SessionTable, session_table_init, find_key, session_table_get, pressure_evict_needed,
  session_table_put,
}
use quic_sni_router.Session.Table.Lookup.{
  IsTable, session_table_init-IsTable, session_table_get_finds,
}
use quic_sni_router.Session.Table.Insertion.{Stored, session_table_put_stores}
use quic_sni_router.Probe
use quic_sni_router.Probe.{Found, hit, empty, exhausted, slot_at, probe}
use quic_sni_router.Probe.Walk.{Holds}
use quic_sni_router.Probe.Placed.{IsPlaced, probe_finds, set-IsPlaced, replicate-IsPlaced}

abbrev home_of : ℕ → ℕ
home_of k = k % 4

abbrev no_entry : List (Option ℕ)
no_entry = none ∷ none ∷ none ∷ none ∷ []

abbrev one_entry : List (Option ℕ)
one_entry = none ∷ some 1 ∷ none ∷ none ∷ []

one_entry-IsPlaced : IsPlaced home_of one_entry
unfolding Probe.probe
one_entry-IsPlaced =
    set-IsPlaced home_of (λ k. k == 1) no_entry 1 1 (replicate-IsPlaced home_of 4) (omega arith)
      refl

set-IsPlaced_example : IsPlaced home_of (none ∷ some 1 ∷ some 5 ∷ none ∷ [])
unfolding Probe.probe
set-IsPlaced_example =
    set-IsPlaced home_of (λ k. k == 5) one_entry 5 2 one_entry-IsPlaced (omega arith) refl

probe_finds_example :
    (p : ℕ) × (Probe.probe (λ k. k == 1) one_entry 4 1 ≡ Probe.hit p)
    × Holds (λ k. k == 1) one_entry p
probe_finds_example =
    probe_finds home_of (λ k. k == 1) one_entry 1 1 one_entry-IsPlaced refl refl (omega arith)

abbrev byte_count : List ℕ → ℕ
byte_count bytes = length bytes

abbrev some_session : Session
some_session = record {
  key = session_single_cid_key (replicate 8 3) 8;
  backend_addr = 2 ∷ 0 ∷ replicate 126 7;
  backend_addr_len = 16;
  last_seen = 5;
  owner_slot = 0;
  owner_flow_id = 0;
}

abbrev new_table : SessionTable
new_table = record {
  sessions = replicate 4 none;
  capacity = 4;
  count = 0;
  expire_cursor = 0;
  evict_cursor = 0;
  cid_len_mask = 0;
  cid_len_mask_pending = 0;
}

new_table-IsTable : IsTable byte_count new_table
unfolding session_table_init
new_table-IsTable = session_table_init-IsTable byte_count 4

session_valid : key_valid some_session.key ≡ true
unfolding key_valid session_single_cid_key session_cid_key
session_valid = refl

-- The same key over another address, which a key without a tuple does not use.
abbrev stale_key : SessionKey
stale_key = record some_session.key { client_addr = replicate 128 9 }

same_keys : key_equals some_session.key stale_key ≡ true
unfolding key_equals session_single_cid_key session_cid_key
same_keys = refl

key_equals-serialize_example : serialize some_session.key ≡ serialize stale_key
key_equals-serialize_example = key_equals-serialize some_session.key stale_key same_keys

walk_ends : find_key byte_count new_table some_session.key ≢ exhausted
unfolding find_key key_hash serialize Probe.probe session_single_cid_key session_cid_key
walk_ends = λ e. cc

calm : pressure_evict_needed new_table ≡ false
unfolding pressure_evict_needed
calm = refl

session_table_put_stores_example :
    (t' : SessionTable) × (p : ℕ) × (session_table_put byte_count new_table some_session
      ≡ ok (t', none))
    × Stored byte_count new_table some_session t' p
session_table_put_stores_example =
    session_table_put_stores byte_count new_table some_session new_table-IsTable session_valid refl
      calm walk_ends

stored_table :
    (t' : SessionTable) × (p : ℕ) × (session_table_put byte_count new_table some_session
      ≡ ok (t', none))
    × Stored byte_count new_table some_session t' p
stored_table =
    session_table_put_stores byte_count new_table some_session new_table-IsTable session_valid refl
      calm walk_ends

session_table_get_finds_example :
    (p : ℕ) × (session_table_get byte_count stored_table.0 some_session.key ≡ some p)
    × ((s' : Session) × (slot_at stored_table.0.sessions p ≡ some s')
        × (key_equals s'.key some_session.key ≡ true))
session_table_get_finds_example =
    session_table_get_finds byte_count stored_table.0 some_session.key stored_table.3.invariant
      session_valid stored_table.1 stored_table.3.entry stored_table.3.stored
      stored_table.3.same_key

abbrev owner_flow : Flow
owner_flow = record {
  fd = 7;
  client_addr = 2 ∷ 0 ∷ replicate 126 1;
  client_addr_len = 16;
  backend_addr = 2 ∷ 0 ∷ replicate 126 7;
  backend_addr_len = 16;
  last_seen = 90;
  id = 3;
}

abbrev one_flow : FlowTable
one_flow = record {
  flows = none ∷ some owner_flow ∷ [];
  index = none ∷ some 1 ∷ none ∷ none ∷ [];
  free_slots = 0 ∷ [];
  capacity = 2;
  index_capacity = 4;
  count = 1;
  expire_cursor = 0;
  evict_cursor = 0;
  has_on_close = false;
  next_id = 4;
  effects = [];
}

abbrev owned_session : Session
owned_session = record some_session { owner_slot = 1; owner_flow_id = 3 }

kept : session_keepalive byte_count one_flow 100 50 owned_session ≡ true
unfolding session_keepalive keepalive_flow flow_table_slot
kept = refl

session_keepalive-KeptBy_example : (flow : Flow) × KeptBy one_flow 100 50 owned_session flow
session_keepalive-KeptBy_example =
    session_keepalive-KeptBy byte_count one_flow 100 50 owned_session kept
