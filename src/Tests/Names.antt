-- ===== src/Tests/Names.antt =====
-- ClientHellos, host names and connection ids.
use quic_sni_router.Base.{
  ℕ, read, advance, copy, arith, ◌<◌, ◌≢◌, ◌⊎◌, get_or, ◌≡◌, refl, sym, true, ◌&&◌, none, some,
  List, [], ◌∷◌, ◌++◌, map, ok, leb, if◌then◌else◌, length, replicate, are_bytes-IsByte, All,
  IsByte, Safe,
}
use quic_sni_router.Tls.Hostname.{max_hostname_len, valid_hostname, hostname_loop, is_alnum}
use quic_sni_router.Tls.Hostname.Labels.{all_labels, valid_hostname-labels}
use quic_sni_router.Probe
use quic_sni_router.Tls.Reader
use quic_sni_router.Tls.ClientHello.{
  client_hello_sni, unwrap_record, handshake_body, skip_fields, find_sni, extension_loop,
  parse_sni_extension, name_loop,
}
use quic_sni_router.Route.Table.{
  RouteTable, route_table_init, find_route, route_table_lookup, add_at, route_table_add,
}
use quic_sni_router.Route.Table.Routes.{IsRoutes, sni_at, route_table_init-IsRoutes}
use quic_sni_router.Route.Table.Insertion.{route_table_add-IsRoutes-Safe}
use quic_sni_router.Route.Table.Sni.{client_hello_sni-route_table_lookup}
use quic_sni_router.Tls.ClientHello.Safety.{IsName, client_hello_sni-Safe}
use quic_sni_router.Route.Hostname.{to_lower, is_host_byte, normalize_loop, normalize_hostname}
use quic_sni_router.Route.Hostname.Agreement.{normalize_hostname-valid_hostname}
use quic_sni_router.Cid.Codec.{
  cid_encoded_version, cid_magic, CidCodec, Cipher, aes128_ctr_crypt, cid_encode, cid_decode,
}
use quic_sni_router.Cid.Codec.RoundTrip.{IsSymmetric, cid_decode-encode}

abbrev host_name : List ℕ
host_name = b'A' ∷ b'.' ∷ b'b' ∷ []

-- A ClientHello with the extension `server_name` alone, of the name A.b.
abbrev client_hello : List ℕ
client_hello =
    1
    ∷ 0
    ∷ 0
    ∷ 55
    ∷ 3
    ∷ 3
    ∷ (replicate 32 7
        ++ (0 ∷ 0 ∷ 2 ∷ 19 ∷ 1 ∷ 1 ∷ 0 ∷ 0 ∷ 12 ∷ 0 ∷ 0 ∷ 0 ∷ 8 ∷ 0 ∷ 6 ∷ 0 ∷ 0 ∷ 3 ∷ host_name))

client_hello_run : client_hello_sni client_hello ≡ ok host_name
unfolding client_hello_sni unwrap_record handshake_body skip_fields find_sni extension_loop
    parse_sni_extension name_loop Reader.init Reader.has Reader.remaining Reader.u8 Reader.u16
    Reader.u24 Reader.skip Reader.subreader Reader.subreader_available Reader.view valid_hostname
    hostname_loop is_alnum read advance copy
client_hello_run = refl

client_hello-AreBytes : All IsByte client_hello
client_hello-AreBytes = are_bytes-IsByte client_hello refl

client_hello_sni-Safe_example : Safe IsName (client_hello_sni client_hello)
client_hello_sni-Safe_example = client_hello_sni-Safe client_hello client_hello-AreBytes

valid_hostname-labels_example :
    valid_hostname host_name ≡ (leb (length host_name) max_hostname_len && all_labels [] host_name)
valid_hostname-labels_example = valid_hostname-labels host_name

normalize_hostname-valid_hostname_example :
    normalize_hostname host_name 256
    ≡ (if valid_hostname host_name then some (map to_lower host_name) else none)
normalize_hostname-valid_hostname_example = normalize_hostname-valid_hostname host_name

-- A key stream of zeros.
abbrev plain_cipher : Cipher
plain_cipher key iv input = some input

abbrev some_codec : CidCodec
some_codec = record { key = replicate 16 9; enabled = true }

abbrev some_nonce : List ℕ
some_nonce = 1 ∷ 2 ∷ 3 ∷ 4 ∷ 5 ∷ 6 ∷ 7 ∷ []

abbrev encoded : List ℕ
encoded = cid_encoded_version ∷ (some_nonce ++ (42 ∷ cid_magic))

encoded_run : cid_encode plain_cipher some_codec 42 some_nonce ≡ ok encoded
unfolding cid_encode aes128_ctr_crypt
encoded_run = refl

plain_cipher-IsSymmetric : IsSymmetric plain_cipher
plain_cipher-IsSymmetric key iv input out h = sym h

cid_decode-encode_example : cid_decode plain_cipher some_codec encoded ≡ ok 42
cid_decode-encode_example =
    cid_decode-encode plain_cipher some_codec 42 some_nonce plain_cipher-IsSymmetric refl
      encoded_run

-- A table with the route of that name, under a hash that takes the first byte.
abbrev first_byte : List ℕ → ℕ
first_byte name = get_or name 0 0

abbrev named_table : RouteTable
named_table = add_at route_table_init 97 (b'a' ∷ b'.' ∷ b'b' ∷ []) (b'h' ∷ []) 443 42

named_table_run :
    route_table_add first_byte route_table_init host_name (b'h' ∷ []) 443 42 ≡ ok named_table
unfolding route_table_add route_table_lookup find_route route_table_init Probe.probe
    normalize_hostname normalize_loop to_lower is_host_byte
named_table_run = refl

named_table-IsRoutes : IsRoutes first_byte named_table
named_table-IsRoutes = rw named_table_run at (
    route_table_add-IsRoutes-Safe first_byte route_table_init host_name (b'h' ∷ []) 443 42
      (route_table_init-IsRoutes first_byte) (omega arith))

sni_lookup_run : route_table_lookup first_byte named_table host_name ≡ some 0
unfolding route_table_lookup find_route add_at route_table_init Probe.probe normalize_hostname
    normalize_loop to_lower is_host_byte
sni_lookup_run = refl

client_hello_sni-route_table_lookup_example :
    ((i : ℕ) × (i < length named_table.routes)
      × (sni_at named_table.routes i ≡ map to_lower host_name)
      × (route_table_lookup first_byte named_table host_name ≡ some i))
    ⊎ (((i : ℕ)
          → i < length named_table.routes
          → sni_at named_table.routes i ≢ map to_lower host_name)
        × (route_table_lookup first_byte named_table host_name ≡ none))
client_hello_sni-route_table_lookup_example =
    client_hello_sni-route_table_lookup first_byte named_table named_table-IsRoutes client_hello
      client_hello-AreBytes host_name client_hello_run
