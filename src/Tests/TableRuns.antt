-- ===== src/Tests/TableRuns.antt =====
-- The tables run: insertions, lookups, deletions and sweeps on small tables.
use quic_sni_router.Base.{
  ℕ, ◌≡◌, refl, Bool, true, false, Option, none, some, List, [], ◌∷◌, ok, ◌==◌, length, replicate,
  Result, ◌>>=◌,
}
use quic_sni_router.Runtime.{runtime_init, should_evict_on_reload, reload_evict}
use quic_sni_router.Sockaddr.{Sockaddr}
use quic_sni_router.Probe
use quic_sni_router.Session.Key.{key_valid, serialize, key_hash, key_equals, session_tuple_key}
use quic_sni_router.Session.Table.{
  Session, session_table_init, find_key, session_table_get, insert_session, update_session,
  update_at, pressure_evict_needed, oldest_loop, reinsert_loop, delete_at, evict_oldest,
  put_attempt, put_attempts, put_internal, session_table_put,
}
use quic_sni_router.Session.Sweep.{
  mask_of, rebuild_cid_len_mask, sweep_loop, session_table_expire, session_table_evict_if,
  advance_cursor, incremental_round, incremental_loop, session_table_expire_incremental,
}
use quic_sni_router.Flow.Table.{
  first_slots, flow_table_init, tuple_hash, index_find, flow_table_get, reindex_loop,
  index_delete_at, remove_slot, flow_table_remove,
}
use quic_sni_router.Flow.Operations.{
  oldest_flow, flow_table_evict_oldest, refresh_flow, open_flow, put_new, flow_table_put,
  expire_flows, flow_table_expire_incremental, filter_flows, flow_table_evict_if,
}
use quic_sni_router.Route.Hostname.{to_lower, is_host_byte, normalize_loop, normalize_hostname}
use quic_sni_router.Route.Table.{
  route_table_init, find_route, route_table_lookup, route_table_lookup_by_server_id, add_at,
  route_table_add,
}
use quic_sni_router.Route.Backends.{
  resolve_routes, find_backend, route_table_has_backend, backend_index_put, index_backends,
  route_table_resolve,
}

-- A poor hash, so that entries collide.
abbrev weak_hash : List ℕ → ℕ
weak_hash bytes = length bytes

-- An IPv4 address with a port.
abbrev client_at : ℕ → Sockaddr
client_at port = 2 ∷ 0 ∷ port ∷ replicate 125 0

abbrev session_at : ℕ → ℕ → Session
session_at port now = record {
  key = session_tuple_key (client_at port) 16;
  backend_addr = client_at 1;
  backend_addr_len = 16;
  last_seen = now;
  owner_slot = 0;
  owner_flow_id = 0;
}

-- Two sessions go in, the older one expires, and the other one is still found.
abbrev session_run : Result (ℕ × (Option ℕ × Option ℕ))
session_run = do
  t0 ← session_table_init 4
  (t1, _) ← session_table_put weak_hash t0 (session_at 5 10)
  (t2, _) ← session_table_put weak_hash t1 (session_at 6 90)
  (t3, n) ← session_table_expire weak_hash t2 100 50
  ok (
    n,
    (
      session_table_get weak_hash t3 (session_tuple_key (client_at 5) 16),
      session_table_get weak_hash t3 (session_tuple_key (client_at 6) 16),
    ),
  )

session_run_lem : session_run ≡ ok (1, (none, some 3))
unfolding session_table_init session_table_put put_internal put_attempts put_attempt
    pressure_evict_needed find_key key_valid session_table_expire sweep_loop delete_at reinsert_loop
    insert_session session_tuple_key key_hash serialize key_equals Probe.probe rebuild_cid_len_mask
    mask_of session_table_get update_at update_session evict_oldest oldest_loop
session_run_lem = refl

abbrev flow_run : Result (Option ℕ × (Option ℕ × ℕ))
flow_run = do
  t0 ← flow_table_init 2
  (t1, _) ← flow_table_put weak_hash t0 (client_at 5) 16 (client_at 1) 16 7 10
  (t2, _) ← flow_table_put weak_hash t1 (client_at 6) 16 (client_at 1) 16 8 20
  (t3, _) ← flow_table_put weak_hash t2 (client_at 7) 16 (client_at 1) 16 9 30
  ok (
    flow_table_get weak_hash t3 (client_at 5) 16,
    (flow_table_get weak_hash t3 (client_at 7) 16, t3.count),
  )

flow_run_lem : flow_run ≡ ok (none, (some 0, 2))
unfolding flow_table_init first_slots flow_table_put index_find tuple_hash put_new open_flow
    flow_table_evict_oldest oldest_flow remove_slot index_delete_at reindex_loop flow_table_get
    refresh_flow Probe.probe
flow_run_lem = refl

-- The filter takes one session, and the incremental sweep the other.
abbrev sweep_run : Result (ℕ × ℕ)
sweep_run = do
  t0 ← session_table_init 4
  (t1, _) ← session_table_put weak_hash t0 (session_at 5 10)
  (t2, _) ← session_table_put weak_hash t1 (session_at 6 90)
  (t3, n) ← session_table_evict_if weak_hash t2 (λ s. s.last_seen == 90)
  (t4, m) ← session_table_expire_incremental weak_hash t3 100 50 4 none
  ok (n, m)

sweep_run_lem : sweep_run ≡ ok (1, 1)
unfolding session_table_init session_table_put put_internal put_attempts put_attempt
    pressure_evict_needed find_key key_valid session_table_evict_if session_table_expire_incremental
    incremental_loop incremental_round advance_cursor sweep_loop delete_at reinsert_loop
    insert_session session_tuple_key key_hash serialize key_equals Probe.probe
sweep_run_lem = refl

abbrev flow_sweep_run : Result (ℕ × (ℕ × ℕ))
flow_sweep_run = do
  t0 ← flow_table_init 4
  (t1, _) ← flow_table_put weak_hash t0 (client_at 5) 16 (client_at 1) 16 7 10
  (t2, _) ← flow_table_put weak_hash t1 (client_at 6) 16 (client_at 1) 16 8 20
  (t3, _) ← flow_table_put weak_hash t2 (client_at 7) 16 (client_at 1) 16 9 90
  t4 ← flow_table_remove weak_hash t3 0
  (t5, n) ← flow_table_evict_if weak_hash t4 (λ f. f.fd == 8)
  (t6, m) ← flow_table_expire_incremental weak_hash t5 100 5 8
  ok (n, (m, t6.count))

flow_sweep_run_lem : flow_sweep_run ≡ ok (1, (1, 0))
unfolding flow_table_init first_slots flow_table_put index_find tuple_hash put_new open_flow
    flow_table_remove flow_table_evict_if filter_flows flow_table_expire_incremental expire_flows
    remove_slot index_delete_at reindex_loop Probe.probe
flow_sweep_run_lem = refl

-- A resolver that maps every host to one address.
abbrev one_backend : List ℕ → ℕ → Option (Sockaddr × ℕ)
one_backend host port = some (client_at 1, 16)

abbrev route_run : Result (Option ℕ × (Option ℕ × (Bool × Bool)))
route_run = do
  t1 ← route_table_add weak_hash route_table_init (b'A' ∷ b'.' ∷ b'b' ∷ []) (b'h' ∷ []) 443 9
  t2 ← route_table_resolve weak_hash one_backend t1
  ok (
    route_table_lookup weak_hash t2 (b'a' ∷ b'.' ∷ b'B' ∷ []),
    (
      route_table_lookup_by_server_id t2 9,
      (
        route_table_has_backend weak_hash t2 (client_at 1) 16,
        route_table_has_backend weak_hash t2 (client_at 2) 16,
      ),
    ),
  )

route_run_lem : route_run ≡ ok (some 0, (some 0, (true, false)))
unfolding route_table_init route_table_add route_table_lookup find_route add_at normalize_hostname
    normalize_loop to_lower is_host_byte route_table_resolve resolve_routes index_backends
    backend_index_put find_backend route_table_lookup_by_server_id route_table_has_backend
    Probe.probe
route_run_lem = refl

-- A reload to an empty route table evicts the sessions of the backend that is gone.
abbrev reload_run : Result (ℕ × ℕ)
reload_run = do
  (s0, f0) ← runtime_init 4
  old ← route_table_add weak_hash route_table_init (b'A' ∷ b'.' ∷ b'b' ∷ []) (b'h' ∷ []) 443 9
  old' ← route_table_resolve weak_hash one_backend old
  (s1, _) ← session_table_put weak_hash s0 (session_at 5 10)
  (s2, f2) ← reload_evict weak_hash old' route_table_init s1 f0
  ok (s1.count, s2.count)

reload_run_lem : reload_run ≡ ok (1, 0)
unfolding runtime_init reload_evict should_evict_on_reload session_table_init flow_table_init
    first_slots route_table_init route_table_add route_table_lookup find_route add_at
    normalize_hostname normalize_loop to_lower is_host_byte route_table_resolve resolve_routes
    index_backends backend_index_put find_backend route_table_has_backend session_table_put
    put_internal put_attempts put_attempt pressure_evict_needed find_key key_valid
    session_table_evict_if sweep_loop delete_at reinsert_loop insert_session session_tuple_key
    key_hash serialize key_equals flow_table_evict_if filter_flows Probe.probe
reload_run_lem = refl
