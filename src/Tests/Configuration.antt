-- ===== src/Tests/Configuration.antt =====
-- The configuration file and the routes.
use quic_sni_router.Base.{
  ℕ, zero, suc, ◌≡◌, refl, inr, Option, none, List, [], ◌∷◌, ◌++◌, arith, ok, err, fault, length,
  get_elem?, get_or, Result, Safe,
}
use quic_sni_router.Config.Numbers.{convert, strtoul, parse_u32, parse_size, parse_bool, parse_port}
use quic_sni_router.Config.Numbers.RoundTrip.{decimal, parse_u32-decimal}
use quic_sni_router.Config.Document.{Node, scalar, mapping, copy_scalar, in_mapping}
use quic_sni_router.Config.Sections.{
  Config, ConfigFile, parsed, idle_timeout_key, max_sessions_key, host_key, port_key, server_id_key,
  connections_key, key_key, routes_key, cid_encoding_key, logging_key, config_default, listen_pair,
  sessions_pair, route_pair, logging_pair, cid_encoding_pair, parse_listen, parse_sessions,
  parse_logging, parse_cid_encoding, parse_route_body, routes_pair, parse_routes, root_pair,
  parse_root, config_load,
}
use quic_sni_router.Config.Sections.Bounds.{IsConfig}
use quic_sni_router.Config.Sections.Loader.{config_load-Safe, IsFound, config_load-lookup-Safe}
use quic_sni_router.Cid.Codec.{hex_nibble, hex_loop, init_from_hex}
use quic_sni_router.Probe
use quic_sni_router.Route.Hostname.{to_lower, is_host_byte, normalize_loop, normalize_hostname}
use quic_sni_router.Route.Table.{
  route_table_init, find_route, route_table_lookup, add_at, route_table_add,
}
use quic_sni_router.Route.Table.Routes.{IsRoutes, route_table_init-IsRoutes}
use quic_sni_router.Route.Table.Insertion.{route_table_add-IsRoutes-Safe}

abbrev first_byte : List ℕ → ℕ
first_byte name = get_or name 0 0

-- listen: { udp: ":8443" }
-- sessions: { idleTimeout: 30s, maxSessions: 500 }
-- routes: { A.b: { host: h, port: 443, serverId: 42 } }
-- logging: { connections: true }
-- cidEncoding: { key: 00112233445566778899aAbBcCdDeEfF }
abbrev nodes : List Node
nodes =
    mapping ((2, 3) ∷ (6, 7) ∷ (12, 13) ∷ (22, 23) ∷ (26, 27) ∷ [])
    ∷ scalar (b'l' ∷ b'i' ∷ b's' ∷ b't' ∷ b'e' ∷ b'n' ∷ [])
    ∷ mapping ((4, 5) ∷ [])
    ∷ scalar (b'u' ∷ b'd' ∷ b'p' ∷ [])
    ∷ scalar (b':' ∷ b'8' ∷ b'4' ∷ b'4' ∷ b'3' ∷ [])
    ∷ scalar (b's' ∷ b'e' ∷ b's' ∷ b's' ∷ b'i' ∷ b'o' ∷ b'n' ∷ b's' ∷ [])
    ∷ mapping ((8, 9) ∷ (10, 11) ∷ [])
    ∷ scalar idle_timeout_key
    ∷ scalar (b'3' ∷ b'0' ∷ b's' ∷ [])
    ∷ scalar max_sessions_key
    ∷ scalar (b'5' ∷ b'0' ∷ b'0' ∷ [])
    ∷ scalar routes_key
    ∷ mapping ((14, 15) ∷ [])
    ∷ scalar (b'A' ∷ b'.' ∷ b'b' ∷ [])
    ∷ mapping ((16, 17) ∷ (18, 19) ∷ (20, 21) ∷ [])
    ∷ scalar host_key
    ∷ scalar (b'h' ∷ [])
    ∷ scalar port_key
    ∷ scalar (b'4' ∷ b'4' ∷ b'3' ∷ [])
    ∷ scalar server_id_key
    ∷ scalar (b'4' ∷ b'2' ∷ [])
    ∷ scalar logging_key
    ∷ mapping ((24, 25) ∷ [])
    ∷ scalar connections_key
    ∷ scalar (b't' ∷ b'r' ∷ b'u' ∷ b'e' ∷ [])
    ∷ scalar cid_encoding_key
    ∷ mapping ((28, 29) ∷ [])
    ∷ scalar key_key
    ∷ scalar (
        b'0' ∷ b'0' ∷ b'1' ∷ b'1' ∷ b'2' ∷ b'2' ∷ b'3' ∷ b'3' ∷ b'4' ∷ b'4' ∷ b'5' ∷ b'5' ∷ b'6'
        ∷ b'6' ∷ b'7' ∷ b'7' ∷ b'8' ∷ b'8' ∷ b'9' ∷ b'9' ∷ b'a' ∷ b'A' ∷ b'b' ∷ b'B' ∷ b'c' ∷ b'C'
        ∷ b'd' ∷ b'D' ∷ b'e' ∷ b'E' ∷ b'f' ∷ b'F' ∷ [])
    ∷ []

abbrev node_of : ℕ → Option Node
node_of zero = none
node_of (suc i) = get_elem? nodes i

abbrev some_file : ConfigFile
some_file = parsed (record { get_root_node = node_of 1; get_node = node_of })

-- What the loader makes of the file, and where its route is found.
abbrev summary : Result Config → Result (List ℕ)
summary (ok c) = ok (
    c.idle_timeout_seconds
    ∷ c.max_sessions
    ∷ length c.listen_udp
    ∷ length c.routes.routes
    ∷ get_or c.cid_codec.key 15 0
    ∷ [])
summary (err e) = err e
summary fault = fault

config_load_run : summary (config_load first_byte some_file) ≡ ok (30 ∷ 500 ∷ 5 ∷ 1 ∷ 255 ∷ [])
unfolding config_load config_default parse_root root_pair in_mapping copy_scalar parse_listen
    listen_pair parse_sessions sessions_pair parse_routes routes_pair parse_route_body route_pair
    parse_logging logging_pair parse_cid_encoding cid_encoding_pair parse_u32 parse_size parse_port
    parse_bool strtoul convert route_table_add route_table_lookup find_route add_at route_table_init
    Probe.probe normalize_hostname normalize_loop to_lower is_host_byte init_from_hex hex_loop
    hex_nibble
config_load_run = refl

config_load_empty :
    config_load first_byte (parsed (record { get_root_node = none; get_node = node_of }))
    ≡ ok config_default
unfolding config_load parse_root
config_load_empty = refl

config_load-Safe_example : Safe (IsConfig first_byte) (config_load first_byte some_file)
config_load-Safe_example = config_load-Safe first_byte some_file

config_load-lookup-Safe_example :
    Safe (λ c. IsFound first_byte c.routes) (config_load first_byte some_file)
config_load-lookup-Safe_example = config_load-lookup-Safe first_byte some_file

parse_u32-decimal_example : parse_u32 1 86400 (decimal 3600 ++ (b's' ∷ [])) ≡ ok 3600
parse_u32-decimal_example =
    parse_u32-decimal 1 86400 3600 (b's' ∷ []) (omega arith) (omega arith) (omega arith) (inr refl)

route_table_add-IsRoutes-Safe_example :
    Safe
      (IsRoutes first_byte)
      (route_table_add first_byte route_table_init (b'A' ∷ b'.' ∷ b'b' ∷ []) (b'h' ∷ []) 443 42)
route_table_add-IsRoutes-Safe_example =
    route_table_add-IsRoutes-Safe first_byte route_table_init (b'A' ∷ b'.' ∷ b'b' ∷ []) (b'h' ∷ [])
      443 42 (route_table_init-IsRoutes first_byte) (omega arith)
