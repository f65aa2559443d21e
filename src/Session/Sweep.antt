-- ===== src/Session/Sweep.antt =====
-- The sweeps over the session table: expiry, incremental expiry, and eviction by a filter.
use quic_sni_router.Base.{
  ℕ, zero, suc, ◌+◌, ◌%◌, min, bit_or, Bool, false, Option, none, some, List, [], ◌∷◌, ok, fault,
  ltb, leb, ◌==◌, if◌then◌else◌, set, Result, ◌>>=◌,
}
use quic_sni_router.Session.Table.{Session, SessionTable, cid_len_bit, Put, delete_at, put_internal}
use quic_sni_router.Probe

-- `now - last_seen >= idle_timeout_seconds`
abbrev pub is_idle : ℕ → ℕ → ℕ → Bool
is_idle now timeout last_seen = leb (last_seen + timeout) now

-- The loop of `rebuild_cid_len_mask`.
unfoldable pub mask_of : List (Option Session) → ℕ → ℕ
mask_of [] mask = mask
mask_of (none ∷ rest) mask = mask_of rest mask
mask_of (some s ∷ rest) mask = mask_of rest (bit_or mask (cid_len_bit s.key))

-- `rebuild_cid_len_mask`
unfoldable pub rebuild_cid_len_mask : SessionTable → SessionTable
rebuild_cid_len_mask t = record t {
  cid_len_mask = mask_of t.sessions 0;
  cid_len_mask_pending = mask_of t.sessions 0;
}

-- The entries that a sweep deletes are put back as `table_delete_at` does it.
abbrev pub sweep_put : (List ℕ → ℕ) → Put
sweep_put hash = put_internal hash 2

module _ (hash : List ℕ → ℕ) where
  -- The walk of `qsr_session_table_expire` and `qsr_session_table_evict_if`: delete in place what the
  -- test takes, and look at the same index again. A round ends at the end of the table, moves on, or
  -- deletes an entry, so the capacity and the count bound the rounds.
  unfoldable pub sweep_loop :
      (Session → Bool) → ℕ → SessionTable → ℕ → ℕ → Result (SessionTable × ℕ)
  sweep_loop takes zero t i removed = fault
  sweep_loop takes (suc fuel) t i removed =
      let on : Result (SessionTable × ℕ) = sweep_loop takes fuel t (i + 1) removed in
      let deleted : Result (SessionTable × ℕ) = (do
        t' ← delete_at (sweep_put hash) t i
        sweep_loop takes fuel t' i (removed + 1)) in
      if ltb i t.capacity
      then elim (Probe.slot_at t.sessions i) [
        | none ↦ on
        | some s ↦ if takes s then deleted else on
      ]
      else ok (t, removed)

  abbrev pub sweep_fuel : SessionTable → ℕ
  sweep_fuel t = t.capacity + t.count + 1

  -- `qsr_session_table_expire`
  unfoldable pub session_table_expire : SessionTable → ℕ → ℕ → Result (SessionTable × ℕ)
  session_table_expire t now timeout = if t.capacity == 0 then ok (t, 0) else (do
    (t', expired) ← sweep_loop (λ s. is_idle now timeout s.last_seen) (sweep_fuel t) t 0 0
    ok (if ltb 0 expired then rebuild_cid_len_mask t' else t', expired))

  -- `qsr_session_table_evict_if`
  unfoldable pub session_table_evict_if :
      SessionTable → (Session → Bool) → Result (SessionTable × ℕ)
  session_table_evict_if t takes =
      if t.capacity == 0 then ok (t, 0) else sweep_loop takes (sweep_fuel t) t 0 0

  -- The end of a round of the incremental sweep: collect the bit of the survivor at the cursor, move
  -- on, and take over the collected mask when a cycle is complete.
  unfoldable pub advance_cursor : SessionTable → SessionTable
  advance_cursor t =
      let bit : ℕ = elim (Probe.slot_at t.sessions t.expire_cursor) [
        | none ↦ 0
        | some s ↦ cid_len_bit s.key
      ] in
      let pending = bit_or t.cid_len_mask_pending bit in
      let cursor = (t.expire_cursor + 1) % t.capacity in
      if cursor == 0
      then record t { expire_cursor = cursor; cid_len_mask = pending; cid_len_mask_pending = 0 }
      else record t { expire_cursor = cursor; cid_len_mask_pending = pending }

  -- One round: refresh, delete or pass the entry at the cursor. The number counts deletions.
  unfoldable pub incremental_round :
      ℕ → ℕ → Option (Session → Bool) → SessionTable → Result (SessionTable × ℕ)
  incremental_round now timeout keep t = elim (Probe.slot_at t.sessions t.expire_cursor) [
    | none ↦ ok (advance_cursor t, 0)
    | some s ↦
        if is_idle now timeout s.last_seen
        then (if (elim keep [ none ↦ false | some f ↦ f s ])
            then ok (
              advance_cursor (record t {
                sessions = set t.sessions t.expire_cursor (some (record s { last_seen = now }));
              }),
              0,
            )
            else (do t' ← delete_at (sweep_put hash) t t.expire_cursor; ok (t', 1)))
        else ok (advance_cursor t, 0)
  ]

  -- `while (scanned < scan_budget && scanned < capacity)`; the first argument is the rounds left.
  unfoldable pub incremental_loop :
      ℕ → ℕ → ℕ → Option (Session → Bool) → SessionTable → ℕ → Result (SessionTable × ℕ)
  incremental_loop zero now timeout keep t expired = ok (t, expired)
  incremental_loop (suc n) now timeout keep t expired = do
    (t', gone) ← incremental_round now timeout keep t
    incremental_loop n now timeout keep t' (expired + gone)

  -- `qsr_session_table_expire_incremental`
  unfoldable pub session_table_expire_incremental :
      SessionTable → ℕ → ℕ → ℕ → Option (Session → Bool) → Result (SessionTable × ℕ)
  session_table_expire_incremental t now timeout scan_budget keep =
      incremental_loop (min scan_budget t.capacity) now timeout keep t 0
