-- ===== src/Session/Table/Insertion.antt =====
-- What `qsr_session_table_put` of src/session_table.c leaves, and that a lookup finds it.
use quic_sni_router.Base.{
  ℕ, ◌<◌, ◌≡◌, refl, ap, ◌∙◌, ◌≢◌, true, false, none, some, List, arith, ok, ◌==◌, length, set,
  length-set, get_or-set_self,
}
use quic_sni_router.Probe
use quic_sni_router.Probe.{Found, hit, empty, exhausted, slot_at, probe}
use quic_sni_router.Probe.Placed.{set-IsPlaced, replace-IsPlaced}
use quic_sni_router.Probe.Update.{probe-set_empty, probe-set_hit, probe_hit-accepts, probe_empty-lt}
use quic_sni_router.Probe.Walk.{slot_at-lt}
use quic_sni_router.Session.Key.{key_valid, key_hash, key_equals}
use quic_sni_router.Session.Key.Equality.{key_equals_refl}
use quic_sni_router.Session.Table.{
  Session, SessionTable, backend_valid, holds_key, find_key, session_table_get, insert_session,
  update_session, update_at, pressure_evict_needed, put_attempt, put_attempts, put_internal,
  session_table_put,
}
use quic_sni_router.Session.Table.Lookup.{home, IsTable, inside, get-hit}

module _ (hash : List ℕ → ℕ) where
  -- What an insertion leaves when it neither evicts nor fails.
  pub record Stored (t : SessionTable) (session : Session) (t' : SessionTable) (p : ℕ)
      : Type 0 where
    pub invariant : IsTable hash t'
    pub found : session_table_get hash t' session.key ≡ some p
    pub entry : Session
    pub stored : slot_at t'.sessions p ≡ some entry
    pub same_key : key_equals entry.key session.key ≡ true
    pub same_backend : entry.backend_addr ≡ session.backend_addr
    pub same_length : entry.backend_addr_len ≡ session.backend_addr_len
    pub same_time : entry.last_seen ≡ session.last_seen

  module _ (t : SessionTable) (session : Session) (good : IsTable hash t)
      (valid : key_valid session.key ≡ true) where
    start_inside : key_hash hash session.key t.capacity < length t.sessions
    start_inside = inside hash t session.key good valid

    holds_own : holds_key session.key session ≡ true
    holds_own = key_equals_refl session.key

    insert_session-Stored :
        (p : ℕ)
        → find_key hash t session.key ≡ empty p
        → Stored t session (insert_session t p session) p
    unfolding insert_session find_key
    insert_session-Stored p ends = record {
      invariant = table;
      found = get-hit hash (insert_session t p session) session.key table valid p again;
      entry = session;
      stored =
          get_or-set_self t.sessions p (some session) none
            (probe_empty-lt (holds_key session.key) t.sessions t.capacity _ p start_inside ends');
      same_key = key_equals_refl session.key;
      same_backend = refl;
      same_length = refl;
      same_time = refl;
    }
      where
        ends' :
            Probe.probe
              (holds_key session.key)
              t.sessions
              t.capacity
              (key_hash hash session.key t.capacity)
            ≡ empty p
        ends' = ends

        again :
            Probe.probe
              (holds_key session.key)
              (set t.sessions p (some session))
              t.capacity
              (key_hash hash session.key t.capacity)
            ≡ hit p
        again =
            probe-set_empty (holds_key session.key) t.sessions t.capacity _ p session start_inside
              ends' holds_own

        table : IsTable hash (insert_session t p session)
        table = record {
          sized = length-set t.sessions p (some session) ∙ good.sized;
          some_slots = good.some_slots;
          placed =
              set-IsPlaced (home hash t.capacity) (holds_key session.key) t.sessions session p
                good.placed start_inside
                (ap
                    (λ n.
                      Probe.probe (holds_key session.key) t.sessions n
                        (key_hash hash session.key t.capacity))
                    good.sized
                  ∙ ends');
        }

    update_at-Stored :
        (p : ℕ) → find_key hash t session.key ≡ hit p → Stored t session (update_at t p session) p
    unfolding find_key update_session update_at
    update_at-Stored p ends =
        let (old, held, same) =
          probe_hit-accepts (holds_key session.key) t.sessions t.capacity _ p start_inside ends in
        updated old held same
      where
        updated :
            (old : Session)
            → slot_at t.sessions p ≡ some old
            → key_equals old.key session.key ≡ true
            → Stored t session (update_at t p session) p
        updated old held same = rw written (record {
          invariant = table;
          found =
              get-hit hash
                (record t { sessions = set t.sessions p (some (update_session old session)) })
                session.key table valid p
                (probe-set_hit (holds_key session.key) t.sessions t.capacity _ p
                  (update_session old session) start_inside ends same);
          entry = update_session old session;
          stored = get_or-set_self t.sessions p _ none (slot_at-lt t.sessions p held);
          same_key = same;
          same_backend = refl;
          same_length = refl;
          same_time = refl;
        })
          where
            written :
                update_at t p session
                ≡ record t { sessions = set t.sessions p (some (update_session old session)) }
            written = rw (held, update_at) refl

            table :
                IsTable hash
                  (record t { sessions = set t.sessions p (some (update_session old session)) })
            table = record {
              sized = length-set t.sessions p _ ∙ good.sized;
              some_slots = good.some_slots;
              placed =
                  replace-IsPlaced (home hash t.capacity) t.sessions p old
                    (update_session old session) good.placed held refl;
            }

    put_by :
        (found : Found)
        → find_key hash t session.key ≡ found
        → found ≢ exhausted
        → pressure_evict_needed t ≡ false
        → (t' : SessionTable) × (p : ℕ) × (put_attempts hash (put_internal hash 1) t session true
            ≡ ok (t', none))
          × Stored t session t' p
    unfolding put_attempts put_attempt
    put_by (hit p) ends ends_well calm =
        (update_at t p session, p, rw (ends, put_attempt) refl, update_at-Stored p ends)
    put_by (empty p) ends ends_well calm = (
      insert_session t p session,
      p,
      rw (ends, calm, put_attempt) refl,
      insert_session-Stored p ends,
    )
    put_by exhausted ends ends_well calm = absurd (ends_well refl)

    -- On a table whose sessions are reachable, below the pressure limit, and where the walk finds an
    -- equal key or an empty slot, an insertion of a valid session succeeds. It keeps the sessions
    -- reachable, and the lookup of its key returns a slot that holds an equal key, its
    -- backend and its time.
    pub session_table_put_stores :
        backend_valid session.backend_addr session.backend_addr_len ≡ true
        → pressure_evict_needed t ≡ false
        → find_key hash t session.key ≢ exhausted
        → (t' : SessionTable) × (p : ℕ) × (session_table_put hash t session ≡ ok (t', none))
          × Stored t session t' p
    unfolding session_table_put put_internal
    session_table_put_stores routable calm ends_well =
        let (t', p, run, stored) = put_by (find_key hash t session.key) refl ends_well calm in
        let positive = good.some_slots in
        let room : (t.capacity == 0) ≡ false = ground arith in
        (t', p, rw (room, valid, routable) run, stored)
