-- ===== src/Flow/Table.antt =====
-- Flows, their index and the stack of free slots.
use quic_sni_router.Base.{
  ℕ, zero, suc, ◌+◌, ◌-◌, ◌*◌, ◌%◌, Bool, false, not, ◌&&◌, Option, none, some, List, [], ◌∷◌, ok,
  fault, invalid, ◌==◌, if◌then◌else◌, set, take, replicate, same_bytes, Result, ◌>>=◌, ◌>>◌,
  reject_if,
}
use quic_sni_router.Sockaddr.{Sockaddr, is_inet}
use quic_sni_router.Probe
use quic_sni_router.Probe.{Found, hit, empty, exhausted, slot_at, probe}

-- `qsr_flow_t` of a slot in use, with the fields that the table writes. A slot that is not in use is
-- zero but for `fd`, which is -1, and is `none`. `fd` is a descriptor, so not negative.
pub record Flow : Type 0 where
  pub fd : ℕ
  pub client_addr : Sockaddr
  pub client_addr_len : ℕ
  pub backend_addr : Sockaddr
  pub backend_addr_len : ℕ
  pub last_seen : ℕ
  pub id : ℕ

-- `qsr_flow_close_reason_t`
pub data CloseReason : Type 0 where
  idle evicted filtered removed shutdown : CloseReason

-- What the table does outside of itself: the call of `on_close`, and `close(fd)`.
pub data Effect : Type 0 where
  on_close : Flow → CloseReason → Effect
  close_fd : ℕ → Effect

-- `qsr_flow_table_t`, and the effects so far, the latest first. `free_slots` is the used part of the
-- stack, its top first, so `free_count` is its length. An index entry is a slot, without the 1 that
-- the program adds to keep 0 for an empty one.
pub record FlowTable : Type 0 where
  pub flows : List (Option Flow)
  pub index : List (Option ℕ)
  pub free_slots : List ℕ
  pub capacity : ℕ
  pub index_capacity : ℕ
  pub count : ℕ
  pub expire_cursor : ℕ
  pub evict_cursor : ℕ
  pub has_on_close : Bool
  pub next_id : ℕ
  pub effects : List Effect

abbrev pub flow_evict_scan_budget : ℕ
flow_evict_scan_budget = 4096

-- `client_valid`, of an address that is there.
abbrev pub client_valid : Sockaddr → ℕ → Bool
client_valid = is_inet

-- `free_slots[i] = capacity - 1 - i`: the top of the stack is slot 0.
unfoldable pub first_slots : ℕ → ℕ → List ℕ
first_slots zero i = []
first_slots (suc n) i = i ∷ first_slots n (i + 1)

-- `qsr_flow_table_init`, where `calloc` has the memory.
unfoldable pub flow_table_init : ℕ → Result FlowTable
flow_table_init capacity = do
  reject_if (capacity == 0) invalid
  ok (record {
    flows = replicate capacity none;
    index = replicate (capacity * 2) none;
    free_slots = first_slots capacity 0;
    capacity = capacity;
    index_capacity = capacity * 2;
    count = 0;
    expire_cursor = 0;
    evict_cursor = 0;
    has_on_close = false;
    next_id = 1;
    effects = [];
  })

-- `tuple_equals`
abbrev pub tuple_equals : Sockaddr → ℕ → Flow → Bool
tuple_equals client len flow =
    flow.client_addr_len == len && same_bytes (take len flow.client_addr) (take len client)

-- The test of `index_find` on an index entry: the slot is in use, by a flow of this tuple.
abbrev pub indexes_tuple : List (Option Flow) → Sockaddr → ℕ → ℕ → Bool
indexes_tuple flows client len slot = elim (Probe.slot_at flows slot) [
  | none ↦ false
  | some flow ↦ tuple_equals client len flow
]

module _ (hash : List ℕ → ℕ) where
  -- `tuple_hash`
  unfoldable pub tuple_hash : Sockaddr → ℕ → ℕ → ℕ
  tuple_hash client len capacity = hash ((len % 256) ∷ take len client) % capacity

  -- `index_find`; its `SIZE_MAX` is `exhausted`.
  unfoldable pub index_find : FlowTable → Sockaddr → ℕ → Found
  index_find t client len =
      Probe.probe (indexes_tuple t.flows client len) t.index t.index_capacity
        (tuple_hash client len t.index_capacity)

  -- `qsr_flow_table_get`: the slot of the flow.
  unfoldable pub flow_table_get : FlowTable → Sockaddr → ℕ → Option ℕ
  flow_table_get t client len =
      if not (client_valid client len) then none else elim (index_find t client len) [
        | hit pos ↦ Probe.slot_at t.index pos
        | empty pos ↦ none
        | exhausted ↦ none
      ]

  -- The loop of `index_delete_at`: take out the index entry at the cursor and put it where
  -- `index_find` says, until the cursor meets an empty entry. A slot without a flow, or a walk with
  -- no end, would write outside the index.
  unfoldable pub reindex_loop : ℕ → FlowTable → ℕ → Result FlowTable
  reindex_loop zero t cursor = fault
  reindex_loop (suc fuel) t cursor = elim (Probe.slot_at t.index cursor) [
    | none ↦ ok t
    | some slot ↦
        let cleared : FlowTable = record t { index = set t.index cursor none } in
        elim (Probe.slot_at t.flows slot) [
          | none ↦ fault
          | some flow ↦ elim (index_find cleared flow.client_addr flow.client_addr_len) [
            | exhausted ↦ fault
            | hit dest ↦
                reindex_loop fuel (record cleared { index = set cleared.index dest (some slot) })
                  ((cursor + 1) % t.index_capacity)
            | empty dest ↦
                reindex_loop fuel (record cleared { index = set cleared.index dest (some slot) })
                  ((cursor + 1) % t.index_capacity)
          ]
        ]
  ]

  -- `index_delete_at`. At least half of the index is empty, so the cursor meets an empty entry
  -- before it has gone round.
  unfoldable pub index_delete_at : FlowTable → ℕ → Result FlowTable
  index_delete_at t pos =
      reindex_loop (t.index_capacity + 1) (record t { index = set t.index pos none })
        ((pos + 1) % t.index_capacity)

  -- `remove_slot`, of a slot in use.
  unfoldable pub remove_slot : FlowTable → ℕ → Flow → CloseReason → Result FlowTable
  remove_slot t slot flow reason = do
    let called : List Effect =
        if t.has_on_close then on_close flow reason ∷ t.effects else t.effects
    t' ← elim (index_find t flow.client_addr flow.client_addr_len) [
      | hit pos ↦ index_delete_at (record t { effects = called }) pos
      | empty pos ↦ ok (record t { effects = called })
      | exhausted ↦ ok (record t { effects = called })
    ]
    ok (record t' {
      flows = set t'.flows slot none;
      free_slots = slot ∷ t'.free_slots;
      count = t'.count - 1;
      effects = close_fd flow.fd ∷ t'.effects;
    })

  -- `qsr_flow_table_remove`, of the flow in a slot.
  unfoldable pub flow_table_remove : FlowTable → ℕ → Result FlowTable
  flow_table_remove t slot = elim (Probe.slot_at t.flows slot) [
    | none ↦ ok t
    | some flow ↦ remove_slot t slot flow removed
  ]
