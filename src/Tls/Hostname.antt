-- ===== src/Tls/Hostname.antt =====
-- The host names that the ClientHello parser accepts, `valid_hostname` of src/tls_client_hello.c.
pub mod Labels
use quic_sni_router.Base.{
  ℕ, zero, suc, ◌+◌, ◌-◌, ◌*◌, ◌/◌, ◌%◌, ◌^◌, ◌≤◌, ◌<◌, min, max, bit_and, bit_or, bit_xor, ◌≡◌,
  refl, sym, ap, ap₂, ◌∙◌, ◌≢◌, ◌↔◌, ◌⊎◌, inl, inr, Bool, true, false, not, ◌&&◌, ◌||◌, Option,
  none, some, List, [], ◌∷◌, ◌++◌, map, arith, ok, err, fault, invalid, truncated, unsupported,
  not_found, full, ltb, leb, ◌==◌, if◌then◌else◌, ltb→lt, lt→ltb, le→ltb, ltb→le, ==_iff, ==_refl,
  ==_ne, Bool-cases, Option-cases, length, get_elem?, get_or, set, take, drop, replicate, All,
  length-append, length-set, length-take, length-drop, length-replicate, get_elem?-lt, get_elem?-ge,
  lt_of_get_elem?, get_elem?-set_self, get_elem?-set_ne, get_elem?-replicate, get_elem?-append_lt,
  get_elem?-drop, get_elem?_of_drop, get_elem?-take, drop-add, take-length_append,
  drop-length_append, take-append-drop, All-get_elem?, All-drop, All-take, All-append, overlay,
  length-overlay, get_elem?-overlay_in, get_elem?-overlay_below, get_elem?-overlay_above,
  get_or_congr, get_or_of_get_elem?, All-overlay, All-set, All-replicate, All-get_or,
  get_or-set_self, get_or-set_ne, take_ext, IsByte, option_read, read, advance, copy, same_bytes,
  same_bytes_refl, same_bytes→eq, read-in, read-eq, advance-in, copy-in, big_endian, Safe-read,
  Safe-advance, Safe-copy, Status, Result, ◌>>=◌, ◌>>◌, reject_if, Safe, Safe-bind, Safe-reject_if,
  Safe-weaken, Safe_ok, Safe-ne-fault, Result-cases,
}

-- `QSR_MAX_HOSTNAME_LEN`
abbrev pub max_hostname_len : ℕ
max_hostname_len = 255

-- `isalnum` of the C locale, which the program does not leave.
unfoldable pub is_alnum : ℕ → Bool
is_alnum c =
    (leb b'0' c && leb c b'9') || ((leb b'A' c && leb c b'Z') || (leb b'a' c && leb c b'z'))

-- The loop of `valid_hostname` and its last line. `prev` is `name[i - 1]`, and the list is what the
-- loop has not reached.
unfoldable pub hostname_loop : ℕ → ℕ → List ℕ → Bool
hostname_loop prev label_len [] = ltb 0 label_len && (leb label_len 63 && not (prev == b'-'))
hostname_loop prev label_len (c ∷ rest) =
    let next_label = hostname_loop c 0 rest in
    let next = hostname_loop c (label_len + 1) rest in
    if c == b'.'
    then (if label_len == 0 || (ltb 63 label_len || prev == b'-') then false else next_label)
    else if not (is_alnum c || c == b'-')
    then false
    else if label_len == 0 && c == b'-'
    then false
    else next

unfoldable pub valid_hostname : List ℕ → Bool
valid_hostname name =
    let len = length name in
    if len == 0
      || (ltb max_hostname_len len || (get_or name 0 0 == b'.' || get_or name (len - 1) 0 == b'.'))
    then false
    else hostname_loop 0 0 name
