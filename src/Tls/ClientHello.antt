-- ===== src/Tls/ClientHello.antt =====
-- The SNI of a ClientHello, `parse_sni_extension` and `qsr_tls_client_hello_sni` of
-- src/tls_client_hello.c.
pub mod Safety
use quic_sni_router.Base.{
  ℕ, zero, suc, ◌+◌, ◌%◌, Bool, not, ◌||◌, List, ok, err, fault, invalid, truncated, not_found, ltb,
  leb, ◌==◌, if◌then◌else◌, length, read, Result, ◌>>=◌, ◌>>◌, reject_if,
}
use quic_sni_router.Quic.CryptoStream.{max_client_hello_size}
use quic_sni_router.Tls.Reader
use quic_sni_router.Tls.Reader.{
  Reader, init, has, remaining, u8, u16, u24, skip, subreader, subreader_available, view,
}
use quic_sni_router.Tls.Hostname.{valid_hostname}

-- `while (r_remaining(&list) >= 3U)` over the entries of the server name list. Each round takes
-- three bytes at least, so the length of the list is fuel enough.
unfoldable pub name_loop : ℕ → Reader → Result (List ℕ)
name_loop zero list = fault
name_loop (suc fuel) list =
    let entry : Result (List ℕ) = (do
      (name_type, list') ← Reader.u8 list
      (name_len, list'') ← Reader.u16 list'
      reject_if (not (Reader.has list'' name_len)) truncated
      if name_type == 0
          then (do
            name ← Reader.view list'' name_len
            reject_if (not (valid_hostname name)) invalid
            ok name)
          else (do list''' ← Reader.skip list'' name_len; name_loop fuel list''')) in
    if leb 3 (Reader.remaining list) then entry else err not_found

-- `parse_sni_extension`. The value is `out->name`, without the zero behind it.
unfoldable pub parse_sni_extension : Reader → Result (List ℕ)
parse_sni_extension r = do
  (list_len, r') ← Reader.u16 r
  (list, r'') ← Reader.subreader r' list_len
  name_loop (list_len + 1) list

-- The optional TLS record header: the reader of the record's body, or the reader as it was.
unfoldable pub unwrap_record : List ℕ → Reader → Result Reader
unwrap_record bytes r =
    if Reader.has r 5
    then (do
      content_type ← read bytes 0
      if content_type == 0x16
          then (do
            r1 ← Reader.skip r 3
            (record_len, r2) ← Reader.u16 r1
            (body, r3) ← Reader.subreader r2 record_len
            ok body)
          else ok r)
    else ok r

-- The handshake header: the reader of the ClientHello's body, and whether it was cut short. A short
-- or another message type is `QSR_ERR_INVALID`.
unfoldable pub handshake_body : Reader → Result (Reader × Bool)
handshake_body r = do
  reject_if (not (Reader.has r 1)) invalid
  (msg_type, r1) ← Reader.u8 r
  reject_if (not (msg_type == 0x01)) invalid
  (hello_len, r2) ← Reader.u24 r1
  (hello, r3, hello_truncated) ← Reader.subreader_available r2 hello_len
  ok (hello, hello_truncated)

-- The fields before the extensions: version, random, session id, cipher suites, compression methods.
unfoldable pub skip_fields : Reader → Result Reader
skip_fields hello = do
  h1 ← Reader.skip hello (2 + 32)
  (session_id_len, h2) ← Reader.u8 h1
  h3 ← Reader.skip h2 session_id_len
  (cipher_suites_len, h4) ← Reader.u16 h3
  reject_if (not (cipher_suites_len % 2 == 0)) invalid
  h5 ← Reader.skip h4 cipher_suites_len
  (compression_methods_len, h6) ← Reader.u8 h5
  Reader.skip h6 compression_methods_len

-- `while (r_remaining(&extensions) >= 4U)`, looking for type 0. Each round takes four bytes at least.
unfoldable pub extension_loop : ℕ → Bool → Reader → Result (List ℕ)
extension_loop zero cut extensions = fault
extension_loop (suc fuel) cut extensions =
    let entry : Result (List ℕ) = (do
      (ext_type, e1) ← Reader.u16 extensions
      (ext_len, e2) ← Reader.u16 e1
      (ext_body, e3) ← Reader.subreader e2 ext_len
      if ext_type == 0 then parse_sni_extension ext_body else extension_loop fuel cut e3) in
    if leb 4 (Reader.remaining extensions)
    then entry
    else err (if cut then truncated else not_found)

-- The extensions block, which may be absent.
unfoldable pub find_sni : Reader → Bool → Result (List ℕ)
find_sni hello hello_truncated = do
  reject_if (Reader.remaining hello == 0) not_found
  (extensions_len, h1) ← Reader.u16 hello
  (extensions, h2, extensions_truncated) ← Reader.subreader_available h1 extensions_len
  extension_loop (extensions_len + 1) (hello_truncated || extensions_truncated) extensions

unfoldable pub client_hello_sni : List ℕ → Result (List ℕ)
client_hello_sni bytes = do
  reject_if (ltb max_client_hello_size (length bytes)) invalid
  r ← unwrap_record bytes (Reader.init bytes (length bytes))
  (hello, hello_truncated) ← handshake_body r
  extensions ← skip_fields hello
  find_sni extensions hello_truncated
