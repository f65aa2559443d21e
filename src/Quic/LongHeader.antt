-- ===== src/Quic/LongHeader.antt =====
-- Long-header packets, `qsr_quic_parse_long_header` of src/quic_initial.c, and the constants of
-- include/qsr/common.h that it uses.
pub mod Safety
pub mod Layout
use quic_sni_router.Base.{
  ℕ, zero, suc, ◌+◌, ◌-◌, ◌*◌, ◌/◌, ◌%◌, ◌^◌, ◌≤◌, ◌<◌, min, max, bit_and, bit_or, bit_xor, ◌≡◌,
  refl, sym, ap, ap₂, ◌∙◌, ◌≢◌, ◌↔◌, ◌⊎◌, inl, inr, Bool, true, false, not, ◌&&◌, ◌||◌, Option,
  none, some, List, [], ◌∷◌, ◌++◌, map, arith, ltb, leb, ◌==◌, if◌then◌else◌, ltb→lt, lt→ltb,
  le→ltb, ltb→le, ==_iff, ==_refl, ==_ne, Bool-cases, Option-cases, length, get_elem?, get_or, set,
  take, drop, replicate, All, length-append, length-set, length-take, length-drop, length-replicate,
  get_elem?-lt, get_elem?-ge, lt_of_get_elem?, get_elem?-set_self, get_elem?-set_ne,
  get_elem?-replicate, get_elem?-append_lt, get_elem?-drop, take-length_append, drop-length_append,
  take-append-drop, All-get_elem?, All-drop, All-take, All-append, Status, invalid, truncated,
  unsupported, not_found, full, Result, ok, err, fault, ◌>>=◌, ◌>>◌, reject_if, Safe, Safe-bind,
  Safe-reject_if, Safe-weaken, Safe_ok, Safe-ne-fault, IsByte, option_read, read, advance, copy,
  same_bytes, same_bytes_refl, same_bytes→eq, read-in, read-eq, advance-in, copy-in,
  get_elem?_of_drop, big_endian, Safe-read, Safe-advance, Safe-copy,
}

abbrev pub quic_v1 : ℕ
quic_v1 = 0x00000001

abbrev pub quic_v2 : ℕ
quic_v2 = 0x6b3343cf

-- `QSR_MAX_QUIC_CID_LEN`, the size of the `dcid` and `scid` arrays.
abbrev pub max_quic_cid_len : ℕ
max_quic_cid_len = 20

-- `qsr_quic_long_header_t`. Of each array the record holds the bytes that are filled, `dcid_len` of
-- `dcid` and `scid_len` of `scid`; the others are zero.
pub record LongHeader : Type 0 where
  pub version : ℕ
  pub type_bits : ℕ
  pub dcid : List ℕ
  pub dcid_len : ℕ
  pub scid : List ℕ
  pub scid_len : ℕ
  pub remainder_offset : ℕ

-- The four bytes of the version, joined by shifts and `|`.
abbrev pub version_of : ℕ → ℕ → ℕ → ℕ → ℕ
version_of b1 b2 b3 b4 = bit_or (bit_or (bit_or (b1 * 2 ^ 24) (b2 * 2 ^ 16)) (b3 * 2 ^ 8)) b4

-- `len - offset` is not taken where it would wrap: the tests before it keep `offset` within `len`.
unfoldable pub parse_long_header : List ℕ → Result LongHeader
parse_long_header bytes = do
  let len = length bytes
  reject_if (ltb len 7) truncated
  first ← read bytes 0
  reject_if (bit_and first 0x80 == 0 || bit_and first 0x40 == 0) invalid
  b1 ← read bytes 1
  b2 ← read bytes 2
  b3 ← read bytes 3
  b4 ← read bytes 4
  let version = version_of b1 b2 b3 b4
  reject_if (not (version == quic_v1) && not (version == quic_v2)) unsupported
  dcid_len ← read bytes 5
  reject_if (ltb max_quic_cid_len dcid_len || ltb (len - 6) dcid_len) invalid
  dcid ← copy bytes 6 dcid_len
  reject_if (leb len (6 + dcid_len)) truncated
  scid_len ← read bytes (6 + dcid_len)
  reject_if (ltb max_quic_cid_len scid_len || ltb (len - (7 + dcid_len)) scid_len) invalid
  scid ← copy bytes (7 + dcid_len) scid_len
  ok (record {
    version = version;
    type_bits = bit_and first 0x30;
    dcid = dcid;
    dcid_len = dcid_len;
    scid = scid;
    scid_len = scid_len;
    remainder_offset = 7 + dcid_len + scid_len;
  })
