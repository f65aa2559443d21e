-- ===== src/Route/Table/Sni.antt =====
-- The route of a ClientHello: the name that src/tls_client_hello.c takes out of it, looked up in the
-- table of src/route_table.c.
use quic_sni_router.Base.{
  ℕ, arith, ◌+◌, ◌%◌, ◌<◌, ◌≡◌, refl, sym, ap, ◌∙◌, ◌≢◌, ◌⊎◌, inl, inr, none, some, List, map, ok,
  length, All, IsByte,
}
use quic_sni_router.Probe.{Found, hit, empty, exhausted}
use quic_sni_router.Probe.Update.{probe_hit-accepts}
use quic_sni_router.Tls.ClientHello.{client_hello_sni}
use quic_sni_router.Tls.Hostname.{max_hostname_len}
use quic_sni_router.Route.Hostname.{to_lower, normalize_hostname}
use quic_sni_router.Route.Hostname.Agreement.{client_hello_sni-normalize_hostname}
use quic_sni_router.Route.Table.{
  RouteTable, route_buckets, names_route, bucket_route, find_route, route_table_lookup,
}
use quic_sni_router.Route.Table.Routes.{IsRoutes, sni_at, lookup_finds, names_route-sni_at}

module _ (hash : List ℕ → ℕ) (t : RouteTable) (good : IsRoutes hash t) (bytes : List ℕ)
    (all : All IsByte bytes) (name : List ℕ) (parsed : client_hello_sni bytes ≡ ok name) where
  lookup_lower :
      route_table_lookup hash t name ≡ bucket_route t (find_route hash t (map to_lower name))
  unfolding route_table_lookup
  lookup_lower = rw normalized refl
    where
      normalized : normalize_hostname name (max_hostname_len + 1) ≡ some (map to_lower name)
      normalized = rw parsed at (client_hello_sni-normalize_hostname bytes all)

  no_route :
      bucket_route t (find_route hash t (map to_lower name)) ≡ none
      → (i : ℕ) → i < length t.routes
      → sni_at t.routes i ≢ map to_lower name
  unfolding route_table_lookup
  no_route absent i low same =
      let found = lookup_finds hash t good i low in
      let plain = good.normalized i low in
      let found' : bucket_route t (find_route hash t (sni_at t.routes i)) ≡ some i =
        rw plain at found in
      let clash : some i ≡ none =
        sym found' ∙ ap (λ n. bucket_route t (find_route hash t n)) same ∙ absent in
      cc

  by_walk :
      (found : Found)
      → find_route hash t (map to_lower name) ≡ found
      → ((i : ℕ) × (i < length t.routes)
          × (sni_at t.routes i ≡ map to_lower name)
          × (bucket_route t found ≡ some i))
        ⊎ (((i : ℕ) → i < length t.routes → sni_at t.routes i ≢ map to_lower name)
            × (bucket_route t found ≡ none))
  unfolding find_route
  by_walk (hit p) ends =
      let lower = map to_lower name in
      let (j, at, names) =
        probe_hit-accepts (names_route t.routes lower) t.buckets route_buckets
          (hash lower % route_buckets) p (rw good.bucket_count (omega arith)) ends in
      inl (j, good.inside p j at, names_route-sni_at t.routes lower j names, at)
  by_walk (empty p) ends = inr (no_route (ap (bucket_route t) ends), refl)
  by_walk exhausted ends = inr (no_route (ap (bucket_route t) ends), refl)

  -- On a well-formed route table, the lookup of the name that the ClientHello parser takes out of any
  -- bytes returns the route whose name is that name in lower case, and returns nothing only where there
  -- is no such route.
  pub client_hello_sni-route_table_lookup :
      ((i : ℕ) × (i < length t.routes)
        × (sni_at t.routes i ≡ map to_lower name)
        × (route_table_lookup hash t name ≡ some i))
      ⊎ (((i : ℕ) → i < length t.routes → sni_at t.routes i ≢ map to_lower name)
          × (route_table_lookup hash t name ≡ none))
  client_hello_sni-route_table_lookup =
      rw lookup_lower (by_walk (find_route hash t (map to_lower name)) refl)
