-- ===== src/Dataplane/Sweeps.antt =====
-- The sweeps of src/udp.c.
use quic_sni_router.Base.{ℕ, ◌/◌, some, ok, ltb, if◌then◌else◌, Result, ◌>>=◌}
use quic_sni_router.Session.Sweep.{session_table_expire_incremental}
use quic_sni_router.Flow.Operations.{flow_table_expire_incremental}
use quic_sni_router.Runtime.{session_keepalive}
use quic_sni_router.Dataplane.Pending.{pending_initial_expire}
use quic_sni_router.Dataplane.State.{Dataplane, World}

-- `QSR_SESSION_EXPIRE_MIN_SCAN` and `QSR_SESSION_EXPIRE_MAX_SCAN`
abbrev pub expire_min_scan : ℕ
expire_min_scan = 1024

abbrev pub expire_max_scan : ℕ
expire_max_scan = 16384

-- `session_expire_scan_budget` and `flow_expire_scan_budget`, by the capacity.
unfoldable pub expire_scan_budget : ℕ → ℕ
expire_scan_budget capacity =
    let budget = capacity / 60 in
    let floor = if ltb budget expire_min_scan then expire_min_scan else budget in
    if ltb expire_max_scan floor then expire_max_scan else floor

module _ (world : World) where
  -- `run_expiry_sweeps`
  unfoldable pub run_expiry_sweeps : Dataplane → ℕ → Result Dataplane
  run_expiry_sweeps dp now = do
    let timeout = dp.config.idle_timeout_seconds
    (sessions, gone) ←
        session_table_expire_incremental world.hash dp.sessions now timeout
          (expire_scan_budget dp.sessions.capacity)
          (some (session_keepalive world.hash dp.flows now timeout))
    (flows, closed) ←
        flow_table_expire_incremental world.hash dp.flows now timeout
          (expire_scan_budget dp.flows.capacity)
    ok (record dp {
      sessions = sessions;
      flows = flows;
      pending = pending_initial_expire dp.pending now;
    })
