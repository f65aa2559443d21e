-- ===== src/Dataplane/Acquire.antt =====
-- The flow of a client tuple: `flow_socket_open` and `flow_acquire` of src/udp.c. The connection log
-- and the fields of a flow that only the log reads are left out.
use quic_sni_router.Base.{
  ℕ, Bool, not, ◌||◌, Option, none, some, List, ◌∷◌, ok, fault, ◌==◌, if◌then◌else◌, set, take,
  same_bytes, Result, ◌>>=◌,
}
use quic_sni_router.Sockaddr.{Sockaddr, family}
use quic_sni_router.Probe.{slot_at}
use quic_sni_router.Flow.Table.{FlowTable, Flow, close_fd, flow_table_get, flow_table_remove}
use quic_sni_router.Flow.Operations.{flow_table_evict_oldest, flow_table_put}

-- What `socket` returns: a descriptor, -1 with `EMFILE` or `ENFILE`, or -1 with another error.
pub data Socket : Type 0 where
  descriptor : ℕ → Socket
  out_of_descriptors failed : Socket

-- The kernel: what `socket` returns on the first and the second attempt, by the address family, and
-- whether `epoll_ctl` adds the descriptor of a slot.
pub record Kernel : Type 0 where
  pub open_socket : ℕ → ℕ → Socket
  pub epoll_add : ℕ → ℕ → Bool

-- The second attempt of `flow_socket_open`.
abbrev pub second_attempt : Socket → Option ℕ
second_attempt (descriptor fd) = some fd
second_attempt out_of_descriptors = none
second_attempt failed = none

-- `flow->backend_addr_len != backend_len || memcmp(&flow->backend_addr, backend, backend_len) != 0`
abbrev pub other_backend : Flow → Sockaddr → ℕ → Bool
other_backend flow backend backend_len =
    not (flow.backend_addr_len == backend_len)
    || not (same_bytes (take backend_len flow.backend_addr) (take backend_len backend))

-- The writes of `flow_acquire` to a flow that the tuple has.
unfoldable pub aim_flow : Flow → Sockaddr → ℕ → ℕ → Flow
aim_flow flow backend backend_len now =
    if other_backend flow backend backend_len
    then record flow { backend_addr = backend; backend_addr_len = backend_len; last_seen = now }
    else record flow { last_seen = now }

abbrev pub set_flow : FlowTable → ℕ → Flow → FlowTable
set_flow t slot flow = record t { flows = set t.flows slot (some flow) }

module _ (hash : List ℕ → ℕ) (kernel : Kernel) where
  -- `flow_socket_open`: the flows and the descriptor.
  unfoldable pub flow_socket_open : FlowTable → ℕ → Result (FlowTable × Option ℕ)
  flow_socket_open t address_family = first_attempt (kernel.open_socket 0 address_family)
    where
      first_attempt : Socket → Result (FlowTable × Option ℕ)
      first_attempt (descriptor fd) = ok (t, some fd)
      first_attempt failed = ok (t, none)
      first_attempt out_of_descriptors = do
        (t', gone) ← flow_table_evict_oldest hash t
        ok (t', (if gone == 1 then second_attempt (kernel.open_socket 1 address_family) else none))

  -- The flow that the tuple has, aimed at the backend.
  unfoldable pub reuse_flow :
      FlowTable → Sockaddr → ℕ → ℕ → ℕ → Option Flow → Result (FlowTable × Option ℕ)
  reuse_flow t backend backend_len now slot none = fault
  reuse_flow t backend backend_len now slot (some flow) =
      ok (set_flow t slot (aim_flow flow backend backend_len now), some slot)

  -- What follows the insertion of a new flow: its descriptor is watched, or closed again.
  unfoldable pub watch_flow : FlowTable → ℕ → Option ℕ → Result (FlowTable × Option ℕ)
  watch_flow t fd none = ok (record t { effects = close_fd fd ∷ t.effects }, none)
  watch_flow t fd (some slot) =
      if kernel.epoll_add fd slot
      then ok (t, some slot)
      else (flow_table_remove hash t slot >>= λ t'. ok (t', none))

  -- A new flow over a descriptor that `flow_socket_open` returned.
  unfoldable pub add_flow :
      FlowTable → Sockaddr → ℕ → Sockaddr → ℕ → ℕ → Option ℕ → Result (FlowTable × Option ℕ)
  add_flow t client client_len backend backend_len now none = ok (t, none)
  add_flow t client client_len backend backend_len now (some fd) = do
    (t', slot) ← flow_table_put hash t client client_len backend backend_len fd now
    watch_flow t' fd slot

  -- `flow_acquire` behind its lookup.
  unfoldable pub acquire_by :
      FlowTable → Sockaddr → ℕ → Sockaddr → ℕ → ℕ → Option ℕ → Result (FlowTable × Option ℕ)
  acquire_by t client client_len backend backend_len now (some slot) =
      reuse_flow t backend backend_len now slot (slot_at t.flows slot)
  acquire_by t client client_len backend backend_len now none = do
    (t', fd) ← flow_socket_open t (family backend)
    add_flow t' client client_len backend backend_len now fd

  -- `flow_acquire`: the flows and the slot.
  unfoldable pub flow_acquire :
      FlowTable → Sockaddr → ℕ → Sockaddr → ℕ → ℕ → Result (FlowTable × Option ℕ)
  flow_acquire t client client_len backend backend_len now =
      acquire_by t client client_len backend backend_len now
        (flow_table_get hash t client client_len)
