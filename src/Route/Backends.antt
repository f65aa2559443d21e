-- ===== src/Route/Backends.antt =====
-- The index of the resolved backends: `qsr_route_table_resolve`, `backend_index_put` and
-- `qsr_route_table_has_backend`.
use quic_sni_router.Base.{
  ℕ, ◌+◌, ◌%◌, Bool, true, false, not, ◌&&◌, ◌||◌, Option, none, some, List, [], ◌∷◌, ok, err,
  invalid, full, ltb, ◌==◌, if◌then◌else◌, get_elem?, set, take, replicate, overlay, same_bytes,
  Result, ◌>>=◌, ◌>>◌, reject_if,
}
use quic_sni_router.Sockaddr.{Sockaddr, sockaddr_size}
use quic_sni_router.Probe
use quic_sni_router.Probe.{Found, hit, empty, exhausted, slot_at, probe}
use quic_sni_router.Route.Table.{route_buckets, Route, RouteTable}

-- The bytes that `hash_backend` hashes.
abbrev pub backend_bytes : Sockaddr → ℕ → List ℕ
backend_bytes addr len = (len % 256) ∷ take len addr

-- `backend_equals`
abbrev pub backend_equals : Route → Sockaddr → ℕ → Bool
backend_equals route addr len =
    route.backend_resolved
    && (route.backend_addr_len == len && same_bytes (take len route.backend_addr) (take len addr))

-- The test on a bucket: a route in use, of this backend.
abbrev pub names_backend : List Route → Sockaddr → ℕ → ℕ → Bool
names_backend routes addr len i = elim (get_elem? routes i) [
  | none ↦ false
  | some route ↦ backend_equals route addr len
]

-- One step of the loop of `qsr_route_table_resolve` over the routes. The resolver (`getaddrinfo` on
-- the host and the port's decimal digits, its first result, if that fits) is a parameter.
unfoldable pub resolve_routes :
    (List ℕ → ℕ → Option (Sockaddr × ℕ)) → List Route → Result (List Route)
resolve_routes resolver [] = ok []
resolve_routes resolver (route ∷ rest) = elim (resolver route.host route.port) [
  | none ↦ err invalid
  | some (addr, len) ↦ if ltb sockaddr_size len then err invalid else (do
    later ← resolve_routes resolver rest
    ok (
        record route {
          backend_addr = overlay 0 (take len addr) (replicate sockaddr_size 0);
          backend_addr_len = len;
          backend_resolved = true;
        }
        ∷ later))
]

module _ (hash : List ℕ → ℕ) where
  unfoldable pub find_backend : RouteTable → Sockaddr → ℕ → Found
  find_backend t addr len =
      Probe.probe (names_backend t.routes addr len) t.backend_buckets route_buckets
        (hash (backend_bytes addr len) % route_buckets)

  -- `qsr_route_table_has_backend`
  unfoldable pub route_table_has_backend : RouteTable → Sockaddr → ℕ → Bool
  route_table_has_backend t addr len =
      if len == 0 || ltb sockaddr_size len
      then false
      else elim (find_backend t addr len) [ hit b ↦ true | empty b ↦ false | exhausted ↦ false ]

  -- `backend_index_put`
  unfoldable pub backend_index_put : RouteTable → ℕ → Route → Result RouteTable
  backend_index_put t i route = do
    reject_if (not route.backend_resolved || route.backend_addr_len == 0) invalid
    elim (find_backend t route.backend_addr route.backend_addr_len) [
      | hit b ↦ ok t
      | empty b ↦ ok (record t { backend_buckets = set t.backend_buckets b (some i) })
      | exhausted ↦ err full
    ]

  -- The second loop of `qsr_route_table_resolve`.
  unfoldable pub index_backends : RouteTable → ℕ → List Route → Result RouteTable
  index_backends t i [] = ok t
  index_backends t i (route ∷ rest) = do
    t' ← backend_index_put t i route
    index_backends t' (i + 1) rest

  -- `qsr_route_table_resolve`. What it has written before it returns an error is not kept: its callers
  -- give such a table up.
  unfoldable pub route_table_resolve :
      (List ℕ → ℕ → Option (Sockaddr × ℕ)) → RouteTable → Result RouteTable
  route_table_resolve resolver t = do
    routes ← resolve_routes resolver t.routes
    index_backends (record t { routes = routes; backend_buckets = replicate route_buckets none }) 0
        routes
