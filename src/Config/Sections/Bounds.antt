-- ===== src/Config/Sections/Bounds.antt =====
-- What holds of every configuration that the loader accepts, and the sections that keep it.
use quic_sni_router.Base.{
  ℕ, ◌+◌, ◌*◌, ◌^◌, ◌≤◌, ◌<◌, ◌≡◌, refl, Bool, false, not, ◌&&◌, Option, List, [], ◌∷◌, arith,
  invalid, full, leb, ◌==◌, length, All, length-append, All-append, same_bytes, Safe-if, Safe,
  Safe-bind, Safe-reject_if,
}
use quic_sni_router.Config.Numbers.{is_empty, parse_u32, parse_size, parse_bool, parse_port}
use quic_sni_router.Config.Numbers.RoundTrip.{parse_u32-Safe, parse_size-Safe, parse_port-Safe}
use quic_sni_router.Config.Document.{Node, copy_scalar, copy_scalar-Safe}
use quic_sni_router.Config.Sections.{
  Config, RouteBody, max_listen_addr_len, max_sessions_default, udp_key, idle_timeout_key,
  max_sessions_key, host_key, port_key, server_id_key, connections_key, config_default, listen_pair,
  sessions_pair, route_pair, logging_pair,
}
use quic_sni_router.Cid.Codec.{CidCodec}
use quic_sni_router.Probe.{Found, hit, empty, exhausted, slot_at}
use quic_sni_router.Route.Hostname.{normalize_hostname}
use quic_sni_router.Route.Table.{
  Route, RouteTable, max_routes, max_addr_len, route_table_init, route_table_lookup, new_route,
  add_at, is_found, checked_name, insert_route, route_table_add,
}
use quic_sni_router.Route.Table.Routes.{IsRoutes, route_table_init-IsRoutes}
use quic_sni_router.Route.Table.Insertion.{checked_name-Safe}
use quic_sni_router.Tls.Hostname.{max_hostname_len}

-- A route with a host that its buffer holds, a port, and a server id of one byte, 0 for none.
pub record IsRoute (r : Route) : Type 0 where
  pub named : is_empty r.host ≡ false
  pub host_fits : length r.host ≤ max_addr_len
  pub port_set : 1 ≤ r.port
  pub port_fits : r.port < 2 ^ 16
  pub id_fits : r.server_id < 256

module _ (hash : List ℕ → ℕ) where
  pub record IsConfig (c : Config) : Type 0 where
    pub listens : is_empty c.listen_udp ≡ false
    pub listen_fits : length c.listen_udp < max_listen_addr_len
    pub times_out : (1 ≤ c.idle_timeout_seconds) × (c.idle_timeout_seconds ≤ 86400)
    pub has_sessions : (1 ≤ c.max_sessions) × (c.max_sessions ≤ max_sessions_default * 10)
    pub few_routes : length c.routes.routes ≤ max_routes
    pub routes_valid : All IsRoute c.routes.routes
    pub routed : IsRoutes hash c.routes

  pub config_default-IsConfig : IsConfig config_default
  unfolding config_default route_table_init
  config_default-IsConfig = record {
    listens = refl;
    listen_fits = omega arith;
    times_out = (omega arith, omega arith);
    has_sessions = (omega arith, omega arith);
    few_routes = omega arith;
    routes_valid = tt;
    routed = route_table_init-IsRoutes hash;
  }

  -- A valid configuration stays valid under the writes of the sections.
  module _ (c : Config) (good : IsConfig c) where
    pub with_listen :
        (text : List ℕ)
        → is_empty text ≡ false
        → length text < max_listen_addr_len
        → IsConfig (record c { listen_udp = text })
    with_listen text filled fits = record {
      listens = filled;
      listen_fits = fits;
      times_out = good.times_out;
      has_sessions = good.has_sessions;
      few_routes = good.few_routes;
      routes_valid = good.routes_valid;
      routed = good.routed;
    }

    pub with_timeout :
        (seconds : ℕ)
        → (1 ≤ seconds) × (seconds ≤ 86400)
        → IsConfig (record c { idle_timeout_seconds = seconds })
    with_timeout seconds bounds = record {
      listens = good.listens;
      listen_fits = good.listen_fits;
      times_out = bounds;
      has_sessions = good.has_sessions;
      few_routes = good.few_routes;
      routes_valid = good.routes_valid;
      routed = good.routed;
    }

    pub with_sessions :
        (size : ℕ)
        → (1 ≤ size) × (size ≤ max_sessions_default * 10)
        → IsConfig (record c { max_sessions = size })
    with_sessions size bounds = record {
      listens = good.listens;
      listen_fits = good.listen_fits;
      times_out = good.times_out;
      has_sessions = bounds;
      few_routes = good.few_routes;
      routes_valid = good.routes_valid;
      routed = good.routed;
    }

    pub with_logging : (b : Bool) → IsConfig (record c { log_connections = b })
    with_logging b = record {
      listens = good.listens;
      listen_fits = good.listen_fits;
      times_out = good.times_out;
      has_sessions = good.has_sessions;
      few_routes = good.few_routes;
      routes_valid = good.routes_valid;
      routed = good.routed;
    }

    pub with_codec : (codec : CidCodec) → IsConfig (record c { cid_codec = codec })
    with_codec codec = record {
      listens = good.listens;
      listen_fits = good.listen_fits;
      times_out = good.times_out;
      has_sessions = good.has_sessions;
      few_routes = good.few_routes;
      routes_valid = good.routes_valid;
      routed = good.routed;
    }

    pub with_routes :
        (t : RouteTable)
        → length t.routes ≤ max_routes
        → All IsRoute t.routes
        → IsRoutes hash t
        → IsConfig (record c { routes = t })
    with_routes t few valid led = record {
      listens = good.listens;
      listen_fits = good.listen_fits;
      times_out = good.times_out;
      has_sessions = good.has_sessions;
      few_routes = few;
      routes_valid = valid;
      routed = led;
    }

  pub listen_pair-Safe :
      (k v : Option Node) (c : Config) → IsConfig c → Safe IsConfig (listen_pair k v c)
  unfolding listen_pair
  listen_pair-Safe k v c good =
      Safe-bind _ _ (copy_scalar k 16) _ (copy_scalar-Safe k 16) λ key key_fits.
        Safe-reject_if _ (not (same_bytes key udp_key)) invalid _ λ known.
          Safe-bind _ _ (copy_scalar v max_listen_addr_len) _
            (copy_scalar-Safe v max_listen_addr_len)
            λ listen_udp text.
              Safe-reject_if _ (is_empty listen_udp) invalid _
                λ filled. with_listen c good listen_udp filled text.0

  pub sessions_pair-Safe :
      (k v : Option Node) (c : Config) → IsConfig c → Safe IsConfig (sessions_pair k v c)
  unfolding sessions_pair
  sessions_pair-Safe k v c good =
      Safe-bind _ _ (copy_scalar k 32) _ (copy_scalar-Safe k 32) λ key key_fits.
        Safe-bind _ _ (copy_scalar v 32) _ (copy_scalar-Safe v 32) λ value value_fits.
          Safe-if IsConfig (same_bytes key idle_timeout_key) _ _
            (λ idle.
              Safe-bind _ _ (parse_u32 1 86400 value) _ (parse_u32-Safe 1 86400 value (omega arith))
                (with_timeout c good))
            (λ other.
              Safe-if IsConfig (same_bytes key max_sessions_key) _ _
                (λ sessions.
                  Safe-bind _ _ (parse_size 1 (max_sessions_default * 10) value) _
                    (parse_size-Safe 1 (max_sessions_default * 10) value) (with_sessions c good))
                (λ unknown. tt))

  pub parse_bool-Safe : (value : List ℕ) → Safe (λ b. Unit {0}) (parse_bool value)
  unfolding parse_bool
  parse_bool-Safe value =
      Safe-if _ (same_bytes value (b't' ∷ b'r' ∷ b'u' ∷ b'e' ∷ [])) _ _ (λ yes. tt)
        (λ other.
          Safe-if _ (same_bytes value (b'f' ∷ b'a' ∷ b'l' ∷ b's' ∷ b'e' ∷ [])) _ _ (λ no. tt)
            (λ neither. tt))

  pub logging_pair-Safe :
      (k v : Option Node) (c : Config) → IsConfig c → Safe IsConfig (logging_pair k v c)
  unfolding logging_pair
  logging_pair-Safe k v c good =
      Safe-bind _ _ (copy_scalar k 16) _ (copy_scalar-Safe k 16) λ key key_fits.
        Safe-bind _ _ (copy_scalar v 16) _ (copy_scalar-Safe v 16) λ value value_fits.
          Safe-if IsConfig (same_bytes key connections_key) _ _
            (λ known.
              Safe-bind _ _ (parse_bool value) _ (parse_bool-Safe value)
                λ b any. with_logging c good b)
            (λ unknown. tt)

  -- What the loop of `parse_route_body` keeps of its locals.
  pub record IsBody (b : RouteBody) : Type 0 where
    pub host_short : length b.host ≤ max_addr_len
    pub port_short : b.port < 2 ^ 16
    pub id_short : b.server_id < 256

  pub route_pair-Safe :
      (k v : Option Node) (b : RouteBody) → IsBody b → Safe IsBody (route_pair k v b)
  unfolding route_pair
  route_pair-Safe k v b good =
      Safe-bind _ _ (copy_scalar k 16) _ (copy_scalar-Safe k 16) λ key key_fits.
        Safe-if IsBody (same_bytes key host_key) _ _
          (λ is_host.
            Safe-bind _ _ (copy_scalar v (max_addr_len + 1)) _
              (copy_scalar-Safe v (max_addr_len + 1))
              λ host text. Safe-reject_if _ (is_empty host) invalid _ λ filled. record {
                host_short = omega (arith, text.0);
                port_short = good.port_short;
                id_short = good.id_short;
              })
          (λ no_host.
            Safe-if IsBody (same_bytes key port_key) _ _
              (λ is_port.
                Safe-bind _ _ (copy_scalar v 16) _ (copy_scalar-Safe v 16) λ port_text text.
                  Safe-bind _ _ (parse_port port_text) _ (parse_port-Safe port_text) λ port bounds.
                    record {
                      host_short = good.host_short;
                      port_short = bounds.1;
                      id_short = good.id_short;
                    })
              (λ no_port.
                Safe-if IsBody (same_bytes key server_id_key) _ _
                  (λ is_id.
                    Safe-bind _ _ (copy_scalar v 8) _ (copy_scalar-Safe v 8) λ sid_text text.
                      Safe-bind _ _ (parse_u32 1 255 sid_text) _
                        (parse_u32-Safe 1 255 sid_text (omega arith))
                        λ sid bounds. record {
                          host_short = good.host_short;
                          port_short = good.port_short;
                          id_short = omega arith;
                        })
                  (λ unknown. tt)))

  -- What `qsr_route_table_add` does to the list of routes where it succeeds.
  pub route_table_add-Safe :
      (t : RouteTable) (sni : List ℕ) (b : RouteBody)
      → IsBody b
      → is_empty b.host ≡ false
      → 1 ≤ b.port
      → All IsRoute t.routes
      → Safe
          (λ t'. (length t'.routes ≤ max_routes) × All IsRoute t'.routes)
          (route_table_add hash t sni b.host b.port b.server_id)
  unfolding route_table_add add_at
  route_table_add-Safe t sni b good named port_set valid =
      Safe-reject_if _ (b.port == 0) invalid _ λ has_port.
        Safe-reject_if _ (leb max_routes (length t.routes)) full _ λ room.
          Safe-bind _ _ (checked_name b.host (normalize_hostname sni (max_hostname_len + 1))) _
            (checked_name-Safe hash b.host _)
            λ name any.
              Safe-reject_if _ (is_found (route_table_lookup hash t name)) invalid _ λ fresh.
                Safe-reject_if _
                  (not (b.server_id == 0) && is_found (slot_at t.server_id_index b.server_id))
                  invalid _ λ fresh_id. inserted name room _
    where
      inserted :
          (name : List ℕ)
          → leb max_routes (length t.routes) ≡ false
          → (found : Found)
          → Safe
              (λ t'. (length t'.routes ≤ max_routes) × All IsRoute t'.routes)
              (insert_route t name b.host b.port b.server_id found)
      inserted name room (hit bucket) = tt
      inserted name room exhausted = tt
      inserted name room (empty bucket) = (
        omega (
          arith,
          length-append t.routes (new_route name b.host b.port b.server_id ∷ []),
          few (length t.routes) room,
        ),
        All-append IsRoute t.routes (new_route name b.host b.port b.server_id ∷ []) valid (
          record {
            named = named;
            host_fits = good.host_short;
            port_set = port_set;
            port_fits = good.port_short;
            id_fits = good.id_short;
          },
          tt,
        ),
      )
        where
          few : (n : ℕ) → leb max_routes n ≡ false → n < max_routes
          few n h = ground arith
