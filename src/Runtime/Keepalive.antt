-- ===== src/Runtime/Keepalive.antt =====
-- What `qsr_runtime_session_keepalive` of src/runtime.c keeps a session for.
use quic_sni_router.Base.{
  ℕ, ◌+◌, ◌<◌, ◌≡◌, ◌≢◌, inl, inr, true, not, ◌&&◌, Option, none, some, List, leb, ◌==◌,
  if◌then◌else◌, ltb→lt, ==_iff, Bool-cases, Option-cases,
}
use quic_sni_router.Probe.{slot_at}
use quic_sni_router.Session.Table.{Session}
use quic_sni_router.Flow.Table.{Flow, FlowTable}
use quic_sni_router.Flow.Operations.{flow_table_slot}
use quic_sni_router.Runtime.{keepalive_flow, session_keepalive}

-- A flow that still carries traffic, of the session's owner where it has one.
abbrev pub KeptBy : FlowTable → ℕ → ℕ → Session → Flow → Type 0
KeptBy flows now timeout session flow =
    ((slot : ℕ) × (slot_at flows.flows slot ≡ some flow))
    × (now < flow.last_seen + timeout)
    × (session.owner_flow_id ≢ 0
        → (flow.id ≡ session.owner_flow_id) × (slot_at flows.flows session.owner_slot ≡ some flow))

flow_table_slot-slot_at :
    (flows : FlowTable) (slot : ℕ) {flow : Flow}
    → flow_table_slot flows slot ≡ some flow
    → slot_at flows.flows slot ≡ some flow
unfolding flow_table_slot
flow_table_slot-slot_at flows slot h = elim (Bool-cases (leb flows.capacity slot)) [
  | inl out ↦ (let clash = rw out at h in absurd (cc))
  | inr within ↦ rw within at h
]

of_owner :
    (id : ℕ) (o : Option Flow) {flow : Flow}
    → elim o [ none ↦ none | some candidate ↦ if candidate.id == id then some candidate else none ]
      ≡ some flow
    → (o ≡ some flow) × (flow.id ≡ id)
of_owner id none h = cc
of_owner id (some candidate) {flow} h = elim (Bool-cases (candidate.id == id)) [
  | inr other ↦ (let clash = rw other at h in absurd (cc))
  | inl same ↦
      let held : some candidate ≡ some flow = rw same at h in
      let e : candidate ≡ flow = cc in (held, rw (← e) ((==_iff candidate.id id).0 same))
]

of_slot :
    (flows : List (Option Flow)) (o : Option ℕ) {flow : Flow}
    → elim o [ none ↦ none | some slot ↦ slot_at flows slot ] ≡ some flow
    → (slot : ℕ) × (slot_at flows slot ≡ some flow)
of_slot flows none h = cc
of_slot flows (some slot) h = (slot, h)

keepalive_flow_lem :
    (hash : List ℕ → ℕ) (flows : FlowTable) (session : Session) {flow : Flow}
    → keepalive_flow hash flows session ≡ some flow
    → ((slot : ℕ) × (slot_at flows.flows slot ≡ some flow))
      × (session.owner_flow_id ≢ 0
          → (flow.id ≡ session.owner_flow_id)
            × (slot_at flows.flows session.owner_slot ≡ some flow))
unfolding keepalive_flow
keepalive_flow_lem hash flows session h = elim (Bool-cases (session.owner_flow_id == 0)) [
  | inl unowned ↦
      let zero_id = (==_iff session.owner_flow_id 0).0 unowned in
      elim (Bool-cases (session.key.has_tuple && not session.key.has_cids)) [
        | inl tuple ↦ (
          of_slot flows.flows _ (rw (unowned, tuple, keepalive_flow) at h),
          λ owned. absurd (owned zero_id),
        )
        | inr other ↦ (let clash = rw (unowned, other, keepalive_flow) at h in absurd (cc))
      ]
  | inr owned ↦
      let (there, same) = of_owner session.owner_flow_id _ (rw (owned, keepalive_flow) at h) in
      let held = flow_table_slot-slot_at flows session.owner_slot there in
      ((session.owner_slot, held), λ n. (same, held))
]

-- A session is kept only for a flow in the table that was seen within the timeout. If the session has
-- an owner, that flow stands in the owner's slot and has the owner's id.
pub session_keepalive-KeptBy :
    (hash : List ℕ → ℕ) (flows : FlowTable) (now timeout : ℕ) (session : Session)
    → session_keepalive hash flows now timeout session ≡ true
    → (flow : Flow) × KeptBy flows now timeout session flow
unfolding session_keepalive
session_keepalive-KeptBy hash flows now timeout session h =
    elim (Option-cases (keepalive_flow hash flows session)) [
      | inl none_there ↦ (let clash = rw (none_there, session_keepalive) at h in absurd (cc))
      | inr (flow, there) ↦
          let recent = rw (there, session_keepalive) at h in
          let (held, owned) = keepalive_flow_lem hash flows session there in
          (flow, (held, ltb→lt now (flow.last_seen + timeout) recent, owned))
    ]
