-- ===== src/Flow/Operations.antt =====
-- The operations of the flow table that remove or insert flows: eviction, insertion and the sweeps.
use quic_sni_router.Base.{
  ℕ, zero, suc, ◌+◌, ◌%◌, min, Bool, not, ◌&&◌, ◌||◌, Option, none, some, List, [], ◌∷◌, ok, fault,
  ltb, leb, ◌==◌, if◌then◌else◌, set, Result, ◌>>=◌,
}
use quic_sni_router.Sockaddr.{Sockaddr, sockaddr_size}
use quic_sni_router.Probe
use quic_sni_router.Probe.{Found, hit, empty, exhausted, slot_at, probe}
use quic_sni_router.Flow.Table.{
  idle, evicted, filtered, close_fd, Flow, FlowTable, flow_evict_scan_budget, client_valid,
  index_find, remove_slot,
}

-- The loop of `qsr_flow_table_evict_oldest`: the victim so far.
unfoldable pub oldest_flow : FlowTable → ℕ → ℕ → Option (ℕ × Flow) → Option (ℕ × Flow)
oldest_flow t zero i victim = victim
oldest_flow t (suc n) i victim =
    let slot = (t.evict_cursor + i) % t.capacity in
    let next : Option (ℕ × Flow) = elim (Probe.slot_at t.flows slot) [
      | none ↦ victim
      | some flow ↦ elim victim [
        | none ↦ some (slot, flow)
        | some (v, oldest) ↦
            if ltb flow.last_seen oldest.last_seen then some (slot, flow) else some (v, oldest)
      ]
    ] in
    oldest_flow t n (i + 1) next

module _ (hash : List ℕ → ℕ) where
  -- `qsr_flow_table_evict_oldest`
  unfoldable pub flow_table_evict_oldest : FlowTable → Result (FlowTable × ℕ)
  flow_table_evict_oldest t =
      let scans =
        if ltb t.capacity flow_evict_scan_budget then t.capacity else flow_evict_scan_budget in
      let moved : FlowTable = record t { evict_cursor = (t.evict_cursor + scans) % t.capacity } in
      if t.capacity == 0 || t.count == 0 then ok (t, 0) else elim (oldest_flow t scans 0 none) [
        | none ↦ ok (moved, 0)
        | some (victim, flow) ↦ do t' ← remove_slot hash moved victim flow evicted; ok (t', 1)
      ]

-- The writes for a tuple that has a flow: the new descriptor and backend.
unfoldable pub refresh_flow : FlowTable → ℕ → Flow → ℕ → Sockaddr → ℕ → ℕ → FlowTable
refresh_flow t slot flow fd backend backend_len now = record t {
  flows = set t.flows slot (
      some (record flow {
        fd = fd;
        backend_addr = backend;
        backend_addr_len = backend_len;
        last_seen = now;
      }));
  effects = if flow.fd == fd then t.effects else close_fd flow.fd ∷ t.effects;
}

-- The writes for a new flow, in the slot on top of the stack. With an empty stack they would read
-- below it.
unfoldable pub open_flow :
    FlowTable → ℕ → Sockaddr → ℕ → Sockaddr → ℕ → ℕ → ℕ → Result (FlowTable × ℕ)
open_flow t pos client len backend backend_len fd now = elim t.free_slots [
  | [] ↦ fault
  | slot ∷ free ↦ ok (
    record t {
      flows = set t.flows slot (
          some (record {
            fd = fd;
            client_addr = client;
            client_addr_len = len;
            backend_addr = backend;
            backend_addr_len = backend_len;
            last_seen = now;
            id = t.next_id;
          }));
      index = set t.index pos (some slot);
      free_slots = free;
      count = t.count + 1;
      next_id = t.next_id + 1;
    },
    slot,
  )
]

module _ (hash : List ℕ → ℕ) where
  -- The insertion of a new tuple, once a slot is free. `pos` is where the walk ended.
  abbrev pub open_at :
      FlowTable → Found → Sockaddr → ℕ → Sockaddr → ℕ → ℕ → ℕ → Result (FlowTable × Option ℕ)
  open_at t pos client len backend backend_len fd now = elim pos [
    | exhausted ↦ ok (t, none)
    | hit p ↦ (do
      (t', slot) ← open_flow t p client len backend backend_len fd now
      ok (t', some slot))
    | empty p ↦ (do
      (t', slot) ← open_flow t p client len backend backend_len fd now
      ok (t', some slot))
  ]

  -- The part of the insertion behind the lookup of the tuple: evict if no slot is free.
  unfoldable pub put_new :
      FlowTable → Found → Sockaddr → ℕ → Sockaddr → ℕ → ℕ → ℕ → Result (FlowTable × Option ℕ)
  put_new t pos client len backend backend_len fd now = elim t.free_slots [
    | slot ∷ free ↦ open_at t pos client len backend backend_len fd now
    | [] ↦ do
      (t', n) ← flow_table_evict_oldest hash t
      if n == 0
          then ok (t', none)
          else open_at t' (index_find hash t' client len) client len backend backend_len fd now
  ]

  -- `qsr_flow_table_put`: the slot of the flow, or nothing.
  unfoldable pub flow_table_put :
      FlowTable → Sockaddr → ℕ → Sockaddr → ℕ → ℕ → ℕ → Result (FlowTable × Option ℕ)
  flow_table_put t client len backend backend_len fd now =
      if not (client_valid client len) || not (ltb 0 backend_len && leb backend_len sockaddr_size)
      then ok (t, none)
      else elim (index_find hash t client len) [
        | hit pos ↦ elim (Probe.slot_at t.index pos) [
          | none ↦ fault
          | some slot ↦ elim (Probe.slot_at t.flows slot) [
            | none ↦ fault
            | some flow ↦ ok (refresh_flow t slot flow fd backend backend_len now, some slot)
          ]
        ]
        | empty pos ↦ put_new t (empty pos) client len backend backend_len fd now
        | exhausted ↦ put_new t exhausted client len backend backend_len fd now
      ]

  -- `while (scanned < scan_budget && scanned < capacity)` of `qsr_flow_table_expire_incremental`.
  unfoldable pub expire_flows : ℕ → ℕ → ℕ → FlowTable → ℕ → Result (FlowTable × ℕ)
  expire_flows zero now timeout t expired = ok (t, expired)
  expire_flows (suc n) now timeout t expired = do
    (t', gone) ← elim (Probe.slot_at t.flows t.expire_cursor) [
      | none ↦ ok (t, 0)
      | some flow ↦
          if leb (flow.last_seen + timeout) now
          then (do t' ← remove_slot hash t t.expire_cursor flow idle; ok (t', 1))
          else ok (t, 0)
    ]
    expire_flows n now timeout (record t' { expire_cursor = (t'.expire_cursor + 1) % t'.capacity })
        (expired + gone)

  -- `qsr_flow_table_expire_incremental`
  unfoldable pub flow_table_expire_incremental : FlowTable → ℕ → ℕ → ℕ → Result (FlowTable × ℕ)
  flow_table_expire_incremental t now timeout scan_budget =
      expire_flows (min scan_budget t.capacity) now timeout t 0

  -- The loop of `qsr_flow_table_evict_if`; the first argument is the slots left.
  unfoldable pub filter_flows : (Flow → Bool) → ℕ → ℕ → FlowTable → ℕ → Result (FlowTable × ℕ)
  filter_flows pred zero slot t n = ok (t, n)
  filter_flows pred (suc left) slot t n = do
    (t', gone) ← elim (Probe.slot_at t.flows slot) [
      | none ↦ ok (t, 0)
      | some flow ↦
          if pred flow
          then (do t' ← remove_slot hash t slot flow filtered; ok (t', 1))
          else ok (t, 0)
    ]
    filter_flows pred left (slot + 1) t' (n + gone)

  -- `qsr_flow_table_evict_if`
  unfoldable pub flow_table_evict_if : FlowTable → (Flow → Bool) → Result (FlowTable × ℕ)
  flow_table_evict_if t pred = filter_flows pred t.capacity 0 t 0

-- `qsr_flow_table_slot`: the flow of a slot in use.
unfoldable pub flow_table_slot : FlowTable → ℕ → Option Flow
flow_table_slot t slot = if leb t.capacity slot then none else Probe.slot_at t.flows slot
