-- ===== src/Quic/Initial.antt =====
-- Initial packets, `qsr_quic_parse_initial` of src/quic_initial.c.
pub mod Safety
use quic_sni_router.Base.{
  ℕ, zero, suc, ◌+◌, ◌-◌, ◌*◌, ◌/◌, ◌%◌, ◌^◌, ◌≤◌, ◌<◌, min, max, bit_and, bit_or, bit_xor, ◌≡◌,
  refl, sym, ap, ap₂, ◌∙◌, ◌≢◌, ◌↔◌, ◌⊎◌, inl, inr, Bool, true, false, not, ◌&&◌, ◌||◌, Option,
  none, some, List, [], ◌∷◌, ◌++◌, map, arith, ltb, leb, ◌==◌, if◌then◌else◌, ltb→lt, lt→ltb,
  le→ltb, ltb→le, ==_iff, ==_refl, ==_ne, Bool-cases, Option-cases, length, get_elem?, get_or, set,
  take, drop, replicate, All, length-append, length-set, length-take, length-drop, length-replicate,
  get_elem?-lt, get_elem?-ge, lt_of_get_elem?, get_elem?-set_self, get_elem?-set_ne,
  get_elem?-replicate, get_elem?-append_lt, get_elem?-drop, take-length_append, drop-length_append,
  take-append-drop, All-get_elem?, All-drop, All-take, All-append, Status, invalid, truncated,
  unsupported, not_found, full, Result, ok, err, fault, ◌>>=◌, ◌>>◌, reject_if, Safe, Safe-bind,
  Safe-reject_if, Safe-weaken, Safe_ok, Safe-ne-fault, IsByte, option_read, read, advance, copy,
  same_bytes, same_bytes_refl, same_bytes→eq, read-in, read-eq, advance-in, copy-in,
  get_elem?_of_drop, big_endian, Safe-read, Safe-advance, Safe-copy, drop-add,
}
use quic_sni_router.Quic.Varint.{parse_varint}
use quic_sni_router.Quic.LongHeader.{LongHeader, quic_v1, quic_v2, parse_long_header}

-- `QSR_MIN_INITIAL_PAYLOAD_LEN`
abbrev pub min_initial_payload_len : ℕ
min_initial_payload_len = 36

-- `qsr_quic_initial_t`, with the arrays as in `LongHeader`.
pub record Initial : Type 0 where
  pub version : ℕ
  pub dcid : List ℕ
  pub dcid_len : ℕ
  pub scid : List ℕ
  pub scid_len : ℕ
  pub token_offset : ℕ
  pub token_len : ℕ
  pub payload_offset : ℕ
  pub payload_len : ℕ
  pub packet_number_offset : ℕ

-- The type bits of an Initial packet; 0xff, which no packet has, for an unknown version.
pub expected_initial_type_bits : ℕ → ℕ
expected_initial_type_bits version =
    if version == quic_v1 then 0x00 else if version == quic_v2 then 0x10 else 0xff

unfoldable pub parse_initial : List ℕ → Result Initial
parse_initial bytes = do
  let len = length bytes
  header ← parse_long_header bytes
  reject_if (not (header.type_bits == expected_initial_type_bits header.version)) invalid
  reject_if (ltb header.dcid_len 8) invalid
  rest ← advance bytes header.remainder_offset
  (token_len, consumed) ← parse_varint rest
  let token_offset = header.remainder_offset + consumed
  reject_if (ltb (len - token_offset) token_len) truncated
  rest' ← advance bytes (token_offset + token_len)
  (payload_len, consumed') ← parse_varint rest'
  let payload_offset = token_offset + token_len + consumed'
  reject_if (ltb (len - payload_offset) payload_len) truncated
  reject_if (ltb payload_len min_initial_payload_len) invalid
  ok (record {
    version = header.version;
    dcid = header.dcid;
    dcid_len = header.dcid_len;
    scid = header.scid;
    scid_len = header.scid_len;
    token_offset = token_offset;
    token_len = token_len;
    payload_offset = payload_offset;
    payload_len = payload_len;
    packet_number_offset = payload_offset;
  })
