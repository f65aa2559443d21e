-- ===== src/Dataplane/State.antt =====
-- The state of the data plane of src/udp.c, and what it calls outside of the program.
use quic_sni_router.Base.{ℕ, List, option_read, Result}
use quic_sni_router.Quic.Crypto.{OpenSsl}
use quic_sni_router.Session.Table.{SessionTable}
use quic_sni_router.Cid.Codec.{Cipher}
use quic_sni_router.Config.Sections.{Config}
use quic_sni_router.Flow.Table.{FlowTable, Flow}
use quic_sni_router.Dataplane.Sender.{Sender}
use quic_sni_router.Dataplane.Pending.{PendingTable}
use quic_sni_router.Dataplane.Acquire.{Kernel}
use quic_sni_router.Probe.{slot_at}

-- `QSR_MIN_INITIAL_DATAGRAM_SIZE`
abbrev pub min_initial_datagram_size : ℕ
min_initial_datagram_size = 1200

-- `qsr_dataplane_t` with the parts of the runtime that it points to.
pub record Dataplane : Type 0 where
  pub config : Config
  pub sessions : SessionTable
  pub flows : FlowTable
  pub pending : PendingTable
  pub sender : Sender
  pub main_fd : ℕ

-- What the program calls outside of its own source, and its keyed hash.
pub record World : Type 0 where
  pub hash : List ℕ → ℕ
  pub cipher : Cipher
  pub ssl : OpenSsl
  pub kernel : Kernel

-- The flow of a slot; a pointer to a slot that is not in use is a fault.
abbrev pub flow_at : FlowTable → ℕ → Result Flow
flow_at t slot = option_read (slot_at t.flows slot)
