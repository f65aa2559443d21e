-- ===== src/Route/Table.antt =====
-- Routes, their insertion and lookup by host name and by server id.
pub mod Routes
pub mod Insertion
pub mod Sni
use quic_sni_router.Base.{
  ℕ, ◌+◌, ◌%◌, Bool, true, false, not, ◌&&◌, Option, none, some, List, [], ◌∷◌, ◌++◌, ok, err,
  invalid, full, ltb, leb, ◌==◌, if◌then◌else◌, length, get_elem?, set, replicate, same_bytes,
  Result, reject_if, ◌>>=◌, ◌>>◌,
}
use quic_sni_router.Sockaddr.{Sockaddr, sockaddr_size}
use quic_sni_router.Probe
use quic_sni_router.Probe.{Found, hit, empty, exhausted, slot_at, probe}
use quic_sni_router.Tls.Hostname.{max_hostname_len}
use quic_sni_router.Route.Hostname.{normalize_hostname}

abbrev pub max_routes : ℕ
max_routes = 1024

abbrev pub route_buckets : ℕ
route_buckets = 2048

abbrev pub max_addr_len : ℕ
max_addr_len = 255

-- `qsr_route_t`
pub record Route : Type 0 where
  pub sni : List ℕ
  pub host : List ℕ
  pub port : ℕ
  pub server_id : ℕ
  pub backend_resolved : Bool
  pub backend_addr : Sockaddr
  pub backend_addr_len : ℕ

-- `qsr_route_table_t`. The list of routes is the used part of the array, so `count` is its length.
-- `none` is `SIZE_MAX` in the buckets and in `server_id_index`.
pub record RouteTable : Type 0 where
  pub routes : List Route
  pub buckets : List (Option ℕ)
  pub backend_buckets : List (Option ℕ)
  pub server_id_index : List (Option ℕ)

-- `qsr_route_table_init`
unfoldable pub route_table_init : RouteTable
route_table_init = record {
  routes = [];
  buckets = replicate route_buckets none;
  backend_buckets = replicate route_buckets none;
  server_id_index = replicate 256 none;
}

-- The test of the lookup on a bucket: a route in use, of this normalized name.
abbrev pub names_route : List Route → List ℕ → ℕ → Bool
names_route routes name i = elim (get_elem? routes i) [
  | none ↦ false
  | some route ↦ same_bytes route.sni name
]

-- The route of the bucket where a lookup ended.
abbrev pub bucket_route : RouteTable → Found → Option ℕ
bucket_route t (hit bucket) = Probe.slot_at t.buckets bucket
bucket_route t (empty bucket) = none
bucket_route t exhausted = none

module _ (hash : List ℕ → ℕ) where
  -- The loop of `qsr_route_table_lookup`, of a name that is normalized.
  unfoldable pub find_route : RouteTable → List ℕ → Found
  find_route t name =
      Probe.probe (names_route t.routes name) t.buckets route_buckets (hash name % route_buckets)

  -- The lookup of a name that `normalize_hostname` has returned, or refused.
  abbrev pub lookup_normalized : RouteTable → Option (List ℕ) → Option ℕ
  lookup_normalized t none = none
  lookup_normalized t (some name) = bucket_route t (find_route t name)

  -- `qsr_route_table_lookup`: the index of the route.
  unfoldable pub route_table_lookup : RouteTable → List ℕ → Option ℕ
  route_table_lookup t sni = lookup_normalized t (normalize_hostname sni (max_hostname_len + 1))

-- `qsr_route_table_lookup_by_server_id`: the index of the route.
unfoldable pub route_table_lookup_by_server_id : RouteTable → ℕ → Option ℕ
route_table_lookup_by_server_id t server_id =
    if server_id == 0 then none else elim (Probe.slot_at t.server_id_index server_id) [
      | none ↦ none
      | some i ↦ if leb (length t.routes) i then none else some i
    ]

-- The route that `qsr_route_table_add` writes.
abbrev pub new_route : List ℕ → List ℕ → ℕ → ℕ → Route
new_route name host port server_id = record {
  sni = name;
  host = host;
  port = port;
  server_id = server_id;
  backend_resolved = false;
  backend_addr = replicate sockaddr_size 0;
  backend_addr_len = 0;
}

-- The writes of `qsr_route_table_add` once it has found an empty bucket.
unfoldable pub add_at : RouteTable → ℕ → List ℕ → List ℕ → ℕ → ℕ → RouteTable
add_at t bucket name host port server_id = record t {
  routes = t.routes ++ (new_route name host port server_id ∷ []);
  buckets = set t.buckets bucket (some (length t.routes));
  server_id_index =
      if server_id == 0
      then t.server_id_index
      else set t.server_id_index server_id (some (length t.routes));
}

abbrev pub is_found : {A : Type 0} → Option A → Bool
is_found none = false
is_found (some a) = true

-- The tests of `qsr_route_table_add` on the normalized name and the host.
abbrev pub checked_name : List ℕ → Option (List ℕ) → Result (List ℕ)
checked_name host none = err invalid
checked_name host (some name) = if ltb max_addr_len (length host) then err invalid else ok name

-- The end of `qsr_route_table_add`, by where its walk over the buckets ends.
abbrev pub insert_route : RouteTable → List ℕ → List ℕ → ℕ → ℕ → Found → Result RouteTable
insert_route t name host port server_id (empty bucket) =
    ok (add_at t bucket name host port server_id)
insert_route t name host port server_id (hit bucket) = err full
insert_route t name host port server_id exhausted = err full

module _ (hash : List ℕ → ℕ) where
  -- `qsr_route_table_add`. An error leaves the table as it is. The insertion takes the first empty
  -- bucket of the walk.
  unfoldable pub route_table_add : RouteTable → List ℕ → List ℕ → ℕ → ℕ → Result RouteTable
  route_table_add t sni host port server_id = do
    reject_if (port == 0) invalid
    reject_if (leb max_routes (length t.routes)) full
    name ← checked_name host (normalize_hostname sni (max_hostname_len + 1))
    reject_if (is_found (route_table_lookup hash t name)) invalid
    reject_if (not (server_id == 0) && is_found (Probe.slot_at t.server_id_index server_id)) invalid
    insert_route t name host port server_id
        (Probe.probe (λ i. false) t.buckets route_buckets (hash name % route_buckets))
