-- ===== src/Config/Sections/Loader.antt =====
-- The loader of the configuration file.
use quic_sni_router.Base.{
  ℕ, ◌+◌, ◌*◌, ◌≡◌, refl, ◌≢◌, inl, inr, false, ◌||◌, Option, none, some, List, [], arith, invalid,
  leb, ◌==◌, ==_ne, Bool-cases, Option-cases, length, get_elem?, lt_of_get_elem?, same_bytes,
  Safe-if, Safe, Safe-bind, Safe-reject_if, Safe-weaken, Safe-both,
}
use quic_sni_router.Config.Numbers.{is_empty}
use quic_sni_router.Route.Table.Routes.{sni_at-get, lookup_finds}
use quic_sni_router.Cid.Codec.{cid_key_len, hex_loop, init_from_hex}
use quic_sni_router.Route.Table.Insertion.{route_table_add-IsRoutes-Safe}
use quic_sni_router.Tls.Hostname.{max_hostname_len}
use quic_sni_router.Config.Document.{
  Node, Document, copy_scalar, in_mapping, in_mapping-Safe, copy_scalar-Safe,
}
use quic_sni_router.Config.Sections.{
  Config, ConfigFile, missing, unreadable, parsed, key_key, listen_key, sessions_key, routes_key,
  cid_encoding_key, logging_key, config_default, listen_pair, sessions_pair, route_pair,
  logging_pair, cid_encoding_pair, parse_listen, parse_sessions, parse_logging, parse_cid_encoding,
  parse_route_body, routes_pair, parse_routes, root_pair, parse_from, parse_root, config_load,
}
use quic_sni_router.Route.Table.{
  Route, RouteTable, route_table_lookup, route_table_lookup_by_server_id, route_table_add,
}
use quic_sni_router.Config.Sections.Bounds.{
  IsConfig, IsBody, config_default-IsConfig, with_codec, with_routes, listen_pair-Safe,
  sessions_pair-Safe, logging_pair-Safe, route_pair-Safe, route_table_add-Safe,
}

module _ (hash : List ℕ → ℕ) where
  init_from_hex-Safe : (key : List ℕ) → Safe (λ u. Unit {0}) (init_from_hex key).1
  unfolding init_from_hex
  init_from_hex-Safe key = elim (Bool-cases (length key == cid_key_len * 2)) [
    | inr other ↦ rw (other, init_from_hex) tt
    | inl sized ↦ elim (Option-cases (hex_loop key)) [
      | inl e ↦ rw (sized, e, init_from_hex) tt
      | inr (bytes, e) ↦ rw (sized, e, init_from_hex) tt
    ]
  ]

  module _ (doc : Document) where
    parse_route_body-Safe :
        (body : Option Node) (c : Config) (sni : List ℕ)
        → IsConfig hash c
        → Safe (IsConfig hash) (parse_route_body hash doc body c sni)
    unfolding parse_route_body
    parse_route_body-Safe body c sni good =
        Safe-bind (IsBody hash) _ (in_mapping doc route_pair body _) _
          (in_mapping-Safe (IsBody hash) doc route_pair (route_pair-Safe hash) body _ empty_body)
          λ locals valid.
            Safe-reject_if _ (is_empty locals.host || locals.port == 0) invalid _ λ given.
              let named : is_empty locals.host ≡ false = ground arith in
              let numbered : (locals.port == 0) ≡ false = ground arith in
              Safe-bind _ _
                (route_table_add hash c.routes sni locals.host locals.port locals.server_id) _
                (Safe-both _ _ _
                  (route_table_add-Safe hash c.routes sni locals valid named (ground arith)
                    good.routes_valid)
                  (route_table_add-IsRoutes-Safe hash c.routes sni locals.host locals.port
                    locals.server_id good.routed valid.id_short))
                λ routes grown. with_routes hash c good routes grown.0.0 grown.0.1 grown.1
      where
        empty_body : IsBody hash (record { host = []; port = 0; server_id = 0 })
        empty_body = record {
          host_short = omega arith;
          port_short = omega arith;
          id_short = omega arith;
        }

    routes_pair-Safe :
        (k v : Option Node) (c : Config)
        → IsConfig hash c
        → Safe (IsConfig hash) (routes_pair hash doc k v c)
    unfolding routes_pair
    routes_pair-Safe k v c good =
        Safe-bind _ _ (copy_scalar k (max_hostname_len + 1)) _
          (copy_scalar-Safe k (max_hostname_len + 1))
          λ sni text.
            Safe-reject_if _ (is_empty sni) invalid _ λ named. parse_route_body-Safe v c sni good

    parse_cid_encoding-Safe :
        (body : Option Node) (c : Config)
        → IsConfig hash c
        → Safe (IsConfig hash) (parse_cid_encoding hash doc body c)
    unfolding parse_cid_encoding cid_encoding_pair
    parse_cid_encoding-Safe body c good =
        Safe-bind (λ text. Unit {0}) _ (in_mapping doc cid_encoding_pair body []) _
          (in_mapping-Safe (λ text. Unit {0}) doc cid_encoding_pair cid_encoding_pair-Safe body []
            tt)
          λ key_hex any. Safe-reject_if _ (is_empty key_hex) invalid _ λ filled.
            Safe-bind (λ u. Unit {0}) _ (init_from_hex key_hex).1 _ (init_from_hex-Safe key_hex)
              λ u any. with_codec hash c good (init_from_hex key_hex).0
      where
        cid_encoding_pair-Safe :
            (k v : Option Node) (text : List ℕ)
            → Unit {0}
            → Safe (λ t. Unit {0}) (cid_encoding_pair k v text)
        cid_encoding_pair-Safe k v text any =
            Safe-bind _ _ (copy_scalar k 16) _ (copy_scalar-Safe k 16) λ key fits.
              Safe-if _ (same_bytes key key_key) _ _
                (λ known.
                  Safe-weaken _ _ (copy_scalar v (cid_key_len * 2 + 1))
                    (copy_scalar-Safe v (cid_key_len * 2 + 1)) λ t fits. tt)
                (λ unknown. tt)

    root_pair-Safe :
        (k v : Option Node) (c : Config)
        → IsConfig hash c
        → Safe (IsConfig hash) (root_pair hash doc k v c)
    unfolding root_pair parse_listen parse_sessions parse_routes parse_logging
    root_pair-Safe k v c good =
        Safe-bind _ _ (copy_scalar k 16) _ (copy_scalar-Safe k 16) λ key text.
          Safe-if (IsConfig hash) (same_bytes key listen_key) _ _
            (λ a. in_mapping-Safe (IsConfig hash) doc listen_pair (listen_pair-Safe hash) v c good)
            (λ a.
              Safe-if (IsConfig hash) (same_bytes key sessions_key) _ _
                (λ b.
                  in_mapping-Safe (IsConfig hash) doc sessions_pair (sessions_pair-Safe hash) v c
                    good)
                (λ b.
                  Safe-if (IsConfig hash) (same_bytes key routes_key) _ _
                    (λ r.
                      in_mapping-Safe (IsConfig hash) doc (routes_pair hash doc) routes_pair-Safe v
                        c good)
                    (λ r.
                      Safe-if (IsConfig hash) (same_bytes key cid_encoding_key) _ _
                        (λ e. parse_cid_encoding-Safe v c good)
                        (λ e.
                          Safe-if (IsConfig hash) (same_bytes key logging_key) _ _
                            (λ l.
                              in_mapping-Safe (IsConfig hash) doc logging_pair
                                (logging_pair-Safe hash) v c good)
                            (λ unknown. tt)))))

    parse_from-Safe :
        (root : Option Node) (c : Config)
        → IsConfig hash c
        → Safe (IsConfig hash) (parse_from hash doc root c)
    parse_from-Safe none c good = good
    parse_from-Safe (some root) c good =
        in_mapping-Safe (IsConfig hash) doc (root_pair hash doc) root_pair-Safe (some root) c good

  -- Whatever the file, the loader returns an error or a configuration in bounds: a listen address that
  -- is not empty and fits its buffer, an idle timeout of 1 to 86400 seconds, room for 1 to 1000000
  -- sessions, and at most 1024 routes, each with a host of 1 to 255 bytes, a port of 1 to 65535 and a
  -- server id of one byte.
  pub config_load-Safe : (file : ConfigFile) → Safe (IsConfig hash) (config_load hash file)
  unfolding config_load parse_root
  config_load-Safe missing = tt
  config_load-Safe unreadable = tt
  config_load-Safe (parsed doc) =
      parse_from-Safe doc doc.get_root_node config_default (config_default-IsConfig hash)

  -- The lookups that a route owes its host name and its server id.
  abbrev pub IsFound : RouteTable → Type 0
  IsFound t =
      (i : ℕ) (r : Route)
      → get_elem? t.routes i ≡ some r
      → (route_table_lookup hash t r.sni ≡ some i)
        × (r.server_id ≢ 0 → route_table_lookup_by_server_id t r.server_id ≡ some i)

  -- In every configuration that the loader returns, a lookup of the name of a route returns that route,
  -- and so does a lookup of its server id, unless that is 0.
  pub config_load-lookup-Safe :
      (file : ConfigFile) → Safe (λ c. IsFound c.routes) (config_load hash file)
  unfolding route_table_lookup_by_server_id
  config_load-lookup-Safe file =
      Safe-weaken _ _ (config_load hash file) (config_load-Safe file) λ c good i r there.
        let low = lt_of_get_elem? c.routes.routes i there in
        (
          rw (← sni_at-get c.routes.routes i there) (lookup_finds hash c.routes good.routed i low),
          λ set_id.
              let has_id = ==_ne r.server_id 0 set_id in
              let led = good.routed.indexed i r there set_id in
              let inside : leb (length c.routes.routes) i ≡ false = ground arith in
              rw (has_id, led, inside) refl,
        )
