-- ===== src/Runtime.antt =====
-- What src/runtime.c does with the tables: their capacities at the start, the keep-alive test of the
-- expiry sweep, and the eviction of a reload. The configuration file and inotify are left out.
pub mod Keepalive
use quic_sni_router.Base.{
  ℕ, ◌+◌, ◌/◌, Bool, false, not, ◌&&◌, Option, none, some, List, ok, ltb, ◌==◌, if◌then◌else◌,
  Result, ◌>>=◌,
}
use quic_sni_router.Probe.{slot_at}
use quic_sni_router.Session.Table.{Session, SessionTable, session_table_init}
use quic_sni_router.Session.Sweep.{session_table_evict_if}
use quic_sni_router.Flow.Table.{Flow, FlowTable, flow_table_init, flow_table_get}
use quic_sni_router.Flow.Operations.{flow_table_evict_if, flow_table_slot}
use quic_sni_router.Sockaddr.{Sockaddr}
use quic_sni_router.Route.Table.{RouteTable}
use quic_sni_router.Route.Backends.{route_table_has_backend}

abbrev pub flows_per_session_divisor : ℕ
flows_per_session_divisor = 4

abbrev pub flow_capacity_min : ℕ
flow_capacity_min = 256

-- The tables of `qsr_runtime_init`.
unfoldable pub runtime_init : ℕ → Result (SessionTable × FlowTable)
runtime_init max_sessions = do
  sessions ← session_table_init max_sessions
  let wanted = max_sessions / flows_per_session_divisor
  flows ← flow_table_init (if ltb wanted flow_capacity_min then flow_capacity_min else wanted)
  ok (sessions, flows)

-- `should_evict_flow_on_reload` and `should_evict_on_reload`, of the backend of a flow or a session.
unfoldable pub should_evict_on_reload : (List ℕ → ℕ) → RouteTable → RouteTable → Sockaddr → ℕ → Bool
should_evict_on_reload hash old_routes new_routes backend len =
    route_table_has_backend hash old_routes backend len
    && not (route_table_has_backend hash new_routes backend len)

-- The evictions of `reload_from_path`, once the new routes are resolved.
unfoldable pub reload_evict :
    (List ℕ → ℕ)
    → RouteTable
    → RouteTable
    → SessionTable
    → FlowTable
    → Result (SessionTable × FlowTable)
reload_evict hash old_routes new_routes sessions flows = do
  (sessions', n) ←
      session_table_evict_if hash sessions
        (λ s. should_evict_on_reload hash old_routes new_routes s.backend_addr s.backend_addr_len)
  (flows', m) ←
      flow_table_evict_if hash flows
        (λ f. should_evict_on_reload hash old_routes new_routes f.backend_addr f.backend_addr_len)
  ok (sessions', flows')

-- The flow that `qsr_runtime_session_keepalive` looks at.
unfoldable pub keepalive_flow : (List ℕ → ℕ) → FlowTable → Session → Option Flow
keepalive_flow hash flows session =
    if not (session.owner_flow_id == 0)
    then elim (flow_table_slot flows session.owner_slot) [
      | none ↦ none
      | some candidate ↦ if candidate.id == session.owner_flow_id then some candidate else none
    ]
    else if session.key.has_tuple && not session.key.has_cids
    then elim (flow_table_get hash flows session.key.client_addr session.key.client_addr_len) [
      | none ↦ none
      | some slot ↦ slot_at flows.flows slot
    ]
    else none

-- `qsr_runtime_session_keepalive`; `now - last_seen < timeout` is signed.
unfoldable pub session_keepalive : (List ℕ → ℕ) → FlowTable → ℕ → ℕ → Session → Bool
session_keepalive hash flows now timeout session = elim (keepalive_flow hash flows session) [
  | none ↦ false
  | some flow ↦ ltb now (flow.last_seen + timeout)
]
