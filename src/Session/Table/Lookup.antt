-- ===== src/Session/Table/Lookup.antt =====
-- What `qsr_session_table_get` of src/session_table.c finds: the invariant of the table.
use quic_sni_router.Base.{
  ℕ, ◌%◌, ◌<◌, ◌≡◌, refl, sym, ap, ap₂, ◌∙◌, true, false, Option, none, some, List, arith, invalid,
  ◌==◌, length, length-replicate, Safe, Safe-reject_if,
}
use quic_sni_router.Probe
use quic_sni_router.Probe.{Found, hit, empty, exhausted, slot_at, probe}
use quic_sni_router.Probe.Walk.{Holds}
use quic_sni_router.Probe.Placed.{IsPlaced, probe_finds, replicate-IsPlaced}
use quic_sni_router.Session.Key.{SessionKey, key_valid, key_hash, key_equals}
use quic_sni_router.Session.Key.Equality.{key_equals-serialize}
use quic_sni_router.Session.Table.{
  Session, SessionTable, session_table_init, holds_key, find_key, session_table_get,
}

module _ (hash : List ℕ → ℕ) where
  -- Where the walk for a session begins.
  abbrev pub home : ℕ → Session → ℕ
  home capacity s = key_hash hash s.key capacity

  -- Every session can be reached from the hash of its key.
  pub record IsTable (t : SessionTable) : Type 0 where
    pub sized : length t.sessions ≡ t.capacity
    pub some_slots : 0 < t.capacity
    pub placed : IsPlaced (home t.capacity) t.sessions

  key_hash-lt :
      (key : SessionKey) (capacity : ℕ) → 0 < capacity → key_hash hash key capacity < capacity
  unfolding key_hash
  key_hash-lt key capacity h = omega arith

  key_equals-key_hash :
      (a b : SessionKey) (capacity : ℕ)
      → key_equals a b ≡ true
      → key_hash hash a capacity ≡ key_hash hash b capacity
  unfolding key_hash
  key_equals-key_hash a b capacity h =
      ap (λ bytes. hash bytes % capacity) (key_equals-serialize a b h)

  -- A session table that the initialization returns has as many slots as its capacity, at least one,
  -- and only reachable sessions.
  pub session_table_init-IsTable : (capacity : ℕ) → Safe IsTable (session_table_init capacity)
  unfolding session_table_init
  session_table_init-IsTable capacity = Safe-reject_if _ (capacity == 0) invalid _ λ some. record {
    sized = length-replicate {0} {A = Option Session} capacity none;
    some_slots = ground arith;
    placed = replicate-IsPlaced (home capacity) capacity;
  }

  module _ (t : SessionTable) (key : SessionKey) (good : IsTable t)
      (valid : key_valid key ≡ true) where
    pub inside : key_hash hash key t.capacity < length t.sessions
    inside = rw good.sized (key_hash-lt key t.capacity good.some_slots)

    pub get-hit : (p : ℕ) → find_key hash t key ≡ hit p → session_table_get hash t key ≡ some p
    unfolding session_table_get
    get-hit p found =
        let some_slots = good.some_slots in
        let room : (t.capacity == 0) ≡ false = ground arith in rw (room, valid, found) refl

    -- On a table whose sessions are reachable, the lookup of a valid key returns a session under an
    -- equal key whenever the table has one.
    pub session_table_get_finds :
        (at : ℕ) (s : Session)
        → slot_at t.sessions at ≡ some s
        → key_equals s.key key ≡ true
        → (p : ℕ) × (session_table_get hash t key ≡ some p)
          × ((s' : Session) × (slot_at t.sessions p ≡ some s') × (key_equals s'.key key ≡ true))
    session_table_get_finds at s there same = (ends.0, get-hit ends.0 found, ends.2)
      where
        start : key_hash hash s.key t.capacity ≡ key_hash hash key t.capacity
        start = key_equals-key_hash s.key key t.capacity same

        ends :
            (p : ℕ) × (Probe.probe
                (holds_key key)
                t.sessions
                (length t.sessions)
                (home t.capacity s)
              ≡ hit p)
            × Holds (holds_key key) t.sessions p
        ends =
            probe_finds (home t.capacity) (holds_key key) t.sessions s at good.placed there same
              (rw start inside)

        found' :
            Probe.probe (holds_key key) t.sessions t.capacity (key_hash hash key t.capacity)
            ≡ hit ends.0
        found' =
            ap₂ (λ n pos. Probe.probe (holds_key key) t.sessions n pos) (sym good.sized) (sym start)
            ∙ ends.1

        found : find_key hash t key ≡ hit ends.0
        found = unfold find_key in found'
