-- ===== src/Probe.antt =====
-- Linear probing. The loops of src/session_table.c, src/flow_table.c and src/route_table.c walk an
-- open-addressed array alike; this is that walk, over what an occupied slot holds.
pub mod Walk
pub mod Placed
pub mod Update
use quic_sni_router.Base.{
  ℕ, zero, suc, ◌+◌, ◌%◌, Bool, Option, none, some, List, if◌then◌else◌, length, get_or,
}

-- Where a walk ends: at a slot that passes the test, at an empty slot, or after its last probe.
pub data Found : Type 0 where
  hit : ℕ → Found
  empty : ℕ → Found
  exhausted : Found

-- The slot at a position; `none` is an empty slot.
abbrev pub slot_at {ℓ} : {E : Type ℓ} → List (Option E) → ℕ → Option E
slot_at slots pos = get_or slots pos none

module _ {ℓ} {E : Type ℓ} (accepts : E → Bool) (slots : List (Option E)) where
  -- `for (probes = 0; probes < n; probes++) { ...; pos = (pos + 1) % capacity; }`
  unfoldable pub probe : ℕ → ℕ → Found
  probe zero pos = exhausted
  probe (suc n) pos =
      let next = probe n ((pos + 1) % length slots) in
      elim (slot_at slots pos) [ none ↦ empty pos | some e ↦ if accepts e then hit pos else next ]
