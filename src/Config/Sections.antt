-- ===== src/Config/Sections.antt =====
-- The sections of the configuration file, and the file itself.
pub mod Bounds
pub mod Loader
use quic_sni_router.Base.{
  ℕ, ◌+◌, ◌*◌, ◌%◌, Bool, false, not, ◌||◌, Option, none, some, List, [], ◌∷◌, ok, err, invalid,
  not_found, ◌==◌, if◌then◌else◌, same_bytes, Result, reject_if, ◌>>=◌, ◌>>◌,
}
use quic_sni_router.Config.Numbers.{is_empty, parse_u32, parse_size, parse_bool, parse_port}
use quic_sni_router.Config.Document.{Node, Document, copy_scalar, in_mapping}
use quic_sni_router.Cid.Codec.{cid_key_len, CidCodec, zero_codec, init_from_hex}
use quic_sni_router.Route.Table.{max_addr_len, RouteTable, route_table_init, route_table_add}
use quic_sni_router.Tls.Hostname.{max_hostname_len}

abbrev pub max_listen_addr_len : ℕ
max_listen_addr_len = 64

abbrev pub max_sessions_default : ℕ
max_sessions_default = 100000

-- The keys of the file.
abbrev pub udp_key : List ℕ
udp_key = b'u' ∷ b'd' ∷ b'p' ∷ []

abbrev pub idle_timeout_key : List ℕ
idle_timeout_key = b'i' ∷ b'd' ∷ b'l' ∷ b'e' ∷ b'T' ∷ b'i' ∷ b'm' ∷ b'e' ∷ b'o' ∷ b'u' ∷ b't' ∷ []

abbrev pub max_sessions_key : List ℕ
max_sessions_key = b'm' ∷ b'a' ∷ b'x' ∷ b'S' ∷ b'e' ∷ b's' ∷ b's' ∷ b'i' ∷ b'o' ∷ b'n' ∷ b's' ∷ []

abbrev pub host_key : List ℕ
host_key = b'h' ∷ b'o' ∷ b's' ∷ b't' ∷ []

abbrev pub port_key : List ℕ
port_key = b'p' ∷ b'o' ∷ b'r' ∷ b't' ∷ []

abbrev pub server_id_key : List ℕ
server_id_key = b's' ∷ b'e' ∷ b'r' ∷ b'v' ∷ b'e' ∷ b'r' ∷ b'I' ∷ b'd' ∷ []

abbrev pub connections_key : List ℕ
connections_key = b'c' ∷ b'o' ∷ b'n' ∷ b'n' ∷ b'e' ∷ b'c' ∷ b't' ∷ b'i' ∷ b'o' ∷ b'n' ∷ b's' ∷ []

abbrev pub key_key : List ℕ
key_key = b'k' ∷ b'e' ∷ b'y' ∷ []

abbrev pub listen_key : List ℕ
listen_key = b'l' ∷ b'i' ∷ b's' ∷ b't' ∷ b'e' ∷ b'n' ∷ []

abbrev pub sessions_key : List ℕ
sessions_key = b's' ∷ b'e' ∷ b's' ∷ b's' ∷ b'i' ∷ b'o' ∷ b'n' ∷ b's' ∷ []

abbrev pub routes_key : List ℕ
routes_key = b'r' ∷ b'o' ∷ b'u' ∷ b't' ∷ b'e' ∷ b's' ∷ []

abbrev pub cid_encoding_key : List ℕ
cid_encoding_key = b'c' ∷ b'i' ∷ b'd' ∷ b'E' ∷ b'n' ∷ b'c' ∷ b'o' ∷ b'd' ∷ b'i' ∷ b'n' ∷ b'g' ∷ []

abbrev pub logging_key : List ℕ
logging_key = b'l' ∷ b'o' ∷ b'g' ∷ b'g' ∷ b'i' ∷ b'n' ∷ b'g' ∷ []

-- `qsr_config_t`; a text is kept without its closing NUL.
pub record Config : Type 0 where
  pub listen_udp : List ℕ
  pub idle_timeout_seconds : ℕ
  pub max_sessions : ℕ
  pub log_connections : Bool
  pub routes : RouteTable
  pub cid_codec : CidCodec

-- `qsr_config_default`
unfoldable pub config_default : Config
config_default = record {
  listen_udp = b':' ∷ b'4' ∷ b'4' ∷ b'3' ∷ [];
  idle_timeout_seconds = 60;
  max_sessions = max_sessions_default;
  log_connections = false;
  routes = route_table_init;
  cid_codec = zero_codec;
}

-- A pass of the loop of `parse_listen`.
unfoldable pub listen_pair : Option Node → Option Node → Config → Result Config
listen_pair k v config = do
  key ← copy_scalar k 16
  reject_if (not (same_bytes key udp_key)) invalid
  listen_udp ← copy_scalar v max_listen_addr_len
  reject_if (is_empty listen_udp) invalid
  ok (record config { listen_udp = listen_udp })

-- A pass of the loop of `parse_sessions`.
unfoldable pub sessions_pair : Option Node → Option Node → Config → Result Config
sessions_pair k v config = do
  key ← copy_scalar k 32
  value ← copy_scalar v 32
  if same_bytes key idle_timeout_key
      then (parse_u32 1 86400 value >>= λ seconds.
          ok (record config { idle_timeout_seconds = seconds }))
      else if same_bytes key max_sessions_key
      then (parse_size 1 (max_sessions_default * 10) value >>= λ size.
          ok (record config { max_sessions = size }))
      else err invalid

-- The locals `host`, `port` and `server_id` of `parse_route_body`.
pub record RouteBody : Type 0 where
  pub host : List ℕ
  pub port : ℕ
  pub server_id : ℕ

-- A pass of the loop of `parse_route_body`.
unfoldable pub route_pair : Option Node → Option Node → RouteBody → Result RouteBody
route_pair k v body = do
  key ← copy_scalar k 16
  if same_bytes key host_key
      then (do
        host ← copy_scalar v (max_addr_len + 1)
        reject_if (is_empty host) invalid
        ok (record body { host = host }))
      else if same_bytes key port_key
      then (do
        port_text ← copy_scalar v 16
        port ← parse_port port_text
        ok (record body { port = port }))
      else if same_bytes key server_id_key
      then (do
        sid_text ← copy_scalar v 8
        sid ← parse_u32 1 255 sid_text
        ok (record body { server_id = sid % 256 }))
      else err invalid

-- A pass of the loop of `parse_logging`.
unfoldable pub logging_pair : Option Node → Option Node → Config → Result Config
logging_pair k v config = do
  key ← copy_scalar k 16
  value ← copy_scalar v 16
  if same_bytes key connections_key
      then (parse_bool value >>= λ connections.
          ok (record config { log_connections = connections }))
      else err invalid

-- A pass of the loop of `parse_cid_encoding`: the text of the key.
unfoldable pub cid_encoding_pair : Option Node → Option Node → List ℕ → Result (List ℕ)
cid_encoding_pair k v key_hex = do
  key ← copy_scalar k 16
  if same_bytes key key_key then copy_scalar v (cid_key_len * 2 + 1) else err invalid

-- The functions of one section each. The configuration that an error leaves half written is not
-- kept: `qsr_config_load` returns the error, and its callers drop the configuration then.
module _ (hash : List ℕ → ℕ) (doc : Document) where
  -- `parse_listen`
  unfoldable pub parse_listen : Option Node → Config → Result Config
  parse_listen node config = in_mapping doc listen_pair node config

  -- `parse_sessions`
  unfoldable pub parse_sessions : Option Node → Config → Result Config
  parse_sessions node config = in_mapping doc sessions_pair node config

  -- `parse_logging`
  unfoldable pub parse_logging : Option Node → Config → Result Config
  parse_logging node config = in_mapping doc logging_pair node config

  -- `parse_cid_encoding`
  unfoldable pub parse_cid_encoding : Option Node → Config → Result Config
  parse_cid_encoding node config = do
    key_hex ← in_mapping doc cid_encoding_pair node []
    reject_if (is_empty key_hex) invalid
    (init_from_hex key_hex).1 >> ok (record config { cid_codec = (init_from_hex key_hex).0 })

  -- `parse_route_body`
  unfoldable pub parse_route_body : Option Node → Config → List ℕ → Result Config
  parse_route_body node config sni = do
    body ← in_mapping doc route_pair node (record { host = []; port = 0; server_id = 0 })
    reject_if (is_empty body.host || body.port == 0) invalid
    routes ← route_table_add hash config.routes sni body.host body.port body.server_id
    ok (record config { routes = routes })

  -- A pass of the loop of `parse_routes`.
  unfoldable pub routes_pair : Option Node → Option Node → Config → Result Config
  routes_pair k v config = do
    sni ← copy_scalar k (max_hostname_len + 1)
    reject_if (is_empty sni) invalid
    parse_route_body v config sni

  -- `parse_routes`
  unfoldable pub parse_routes : Option Node → Config → Result Config
  parse_routes node config = in_mapping doc routes_pair node config

  -- A pass of the loop of `parse_root`.
  unfoldable pub root_pair : Option Node → Option Node → Config → Result Config
  root_pair k v config = do
    key ← copy_scalar k 16
    if same_bytes key listen_key
        then parse_listen v config
        else if same_bytes key sessions_key
        then parse_sessions v config
        else if same_bytes key routes_key
        then parse_routes v config
        else if same_bytes key cid_encoding_key
        then parse_cid_encoding v config
        else if same_bytes key logging_key
        then parse_logging v config
        else err invalid

  -- `parse_root` behind its first call. An empty document leaves the defaults.
  abbrev pub parse_from : Option Node → Config → Result Config
  parse_from none config = ok config
  parse_from (some root) config = in_mapping doc root_pair (some root) config

  -- `parse_root`
  unfoldable pub parse_root : Config → Result Config
  parse_root config = parse_from doc.get_root_node config

-- What the file system and `yaml_parser_load` deliver: no file, a file that cannot be opened or is
-- no YAML, or a document.
pub data ConfigFile : Type 0 where
  missing unreadable : ConfigFile
  parsed : Document → ConfigFile

-- `qsr_config_load`: from the defaults.
unfoldable pub config_load : (List ℕ → ℕ) → ConfigFile → Result Config
config_load hash missing = err not_found
config_load hash unreadable = err invalid
config_load hash (parsed doc) = parse_root hash doc config_default
