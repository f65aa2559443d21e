-- ===== src/Quic/LongHeader/Layout.antt =====
-- A packet laid out as RFC 9000, section 17.2, says is read back by `parse_long_header`.
use quic_sni_router.Base.{
  ℕ, ◌+◌, ◌-◌, ◌*◌, ◌/◌, ◌%◌, ◌^◌, ◌≤◌, ◌<◌, bit_and, bit_or, ◌≡◌, refl, ap, ◌∙◌, ◌⊎◌, false, not,
  ◌&&◌, ◌||◌, List, ◌∷◌, ◌++◌, arith, ltb, leb, ◌==◌, length, drop, length-append,
  take-length_append, drop-length_append, ok, read, copy, read-eq, copy-in, get_elem?_of_drop,
  drop-add,
}
use quic_sni_router.Base.Bits.{bit_or_byte, bit_or_word, bit_or_three}
use mathlib.Core.List.{append_assoc}
use quic_sni_router.Quic.LongHeader.{
  quic_v1, quic_v2, max_quic_cid_len, version_of, parse_long_header,
}

-- The first byte, the version's four bytes, and the connection ids behind their lengths.
abbrev pub encode_long_header : ℕ → ℕ → List ℕ → List ℕ → List ℕ
encode_long_header first version dcid scid =
    first
    ∷ version / 2 ^ 24
    ∷ version / 2 ^ 16 % 256
    ∷ version / 2 ^ 8 % 256
    ∷ version % 256
    ∷ length dcid
    ∷ (dcid ++ (length scid ∷ scid))

pub version_of_bytes :
    (b1 b2 b3 b4 : ℕ)
    → b1 < 256
    → b2 < 256
    → b3 < 256
    → b4 < 256
    → version_of b1 b2 b3 b4 ≡ b1 * 2 ^ 24 + b2 * 2 ^ 16 + b3 * 2 ^ 8 + b4
version_of_bytes b1 b2 b3 b4 h1 h2 h3 h4 =
    let e1 : bit_or (b1 * 2 ^ 24) (b2 * 2 ^ 16) ≡ b1 * 2 ^ 24 + b2 * 2 ^ 16 =
      bit_or_three b1 (b2 * 2 ^ 16) (omega arith) in
    let s2 : b1 * 2 ^ 24 + b2 * 2 ^ 16 ≡ (b1 * 256 + b2) * 2 ^ 16 = omega arith in
    let e2 : bit_or ((b1 * 256 + b2) * 2 ^ 16) (b3 * 2 ^ 8)
        ≡ (b1 * 256 + b2) * 2 ^ 16 + b3 * 2 ^ 8 =
      bit_or_word (b1 * 256 + b2) (b3 * 2 ^ 8) (omega arith) in
    let s3 : (b1 * 256 + b2) * 2 ^ 16 + b3 * 2 ^ 8 ≡ ((b1 * 256 + b2) * 256 + b3) * 256 =
      omega arith in
    rw (e1, s2, e2, s3, bit_or_byte ((b1 * 256 + b2) * 256 + b3) b4 h4) (omega arith)

version_round_trip :
    (v : ℕ)
    → v < 2 ^ 32
    → version_of (v / 2 ^ 24) (v / 2 ^ 16 % 256) (v / 2 ^ 8 % 256) (v % 256) ≡ v
version_round_trip v h =
    version_of_bytes (v / 2 ^ 24) (v / 2 ^ 16 % 256) (v / 2 ^ 8 % 256) (v % 256) (omega arith)
      (omega arith) (omega arith) (omega arith)
    ∙ omega arith

module _ (first version : ℕ) (dcid scid rest : List ℕ) where
  abbrev packet : List ℕ
  packet = encode_long_header first version dcid scid ++ rest

  packet_tail : drop 6 packet ≡ dcid ++ (length scid ∷ (scid ++ rest))
  packet_tail = append_assoc dcid (length scid ∷ scid) rest

  length-packet : length packet ≡ 7 + length dcid + length scid + length rest
  length-packet = omega (
    arith,
    length-append (encode_long_header first version dcid scid) rest,
    length-append dcid (length scid ∷ scid),
  )

  dcid_copy : copy packet 6 (length dcid) ≡ ok dcid
  dcid_copy =
      copy-in packet 6 (length dcid) (omega (arith, length-packet))
      ∙ ap ok (rw packet_tail (take-length_append dcid _ (length dcid) refl))

  behind_dcid : drop (6 + length dcid) packet ≡ length scid ∷ (scid ++ rest)
  behind_dcid =
      drop-add 6 (length dcid) packet
      ∙ ap (drop (length dcid)) packet_tail
      ∙ drop-length_append dcid (length scid ∷ (scid ++ rest)) (length dcid) refl

  scid_tail : drop (7 + length dcid) packet ≡ scid ++ rest
  scid_tail =
      let e : 7 + length dcid ≡ 6 + length dcid + 1 = omega arith in
      rw e ((get_elem?_of_drop (6 + length dcid) packet behind_dcid).1)

  scid_len_read : read packet (6 + length dcid) ≡ ok (length scid)
  scid_len_read = read-eq packet _ ((get_elem?_of_drop (6 + length dcid) packet behind_dcid).0)

  scid_copy : copy packet (7 + length dcid) (length scid) ≡ ok scid
  scid_copy =
      copy-in packet (7 + length dcid) (length scid) (omega (arith, length-packet))
      ∙ ap ok (rw scid_tail (take-length_append scid _ (length scid) refl))

  -- A packet with both header bits set, a supported version and connection ids of at most 20 bytes
  -- is parsed into exactly its fields, and the remainder begins behind them.
  pub parse_long_header-encode :
      (bit_and first 0x80 == 0 || bit_and first 0x40 == 0) ≡ false
      → (version ≡ quic_v1) ⊎ (version ≡ quic_v2)
      → length dcid ≤ max_quic_cid_len
      → length scid ≤ max_quic_cid_len
      → parse_long_header packet
        ≡ ok (record {
          version = version;
          type_bits = bit_and first 0x30;
          dcid = dcid;
          dcid_len = length dcid;
          scid = scid;
          scid_len = length scid;
          remainder_offset = 7 + length dcid + length scid;
        })
  unfolding parse_long_header read
  parse_long_header-encode fixed known hd hs =
      let total = length-packet in
      let version_ok : version_of (version / 2 ^ 24) (version / 2 ^ 16 % 256)
            (version / 2 ^ 8 % 256) (version % 256)
          ≡ version =
        version_round_trip version (ground arith) in
      let supported : (not (version == quic_v1) && not (version == quic_v2)) ≡ false =
        ground arith in
      let long : ltb (length packet) 7 ≡ false = ground arith in
      let dcid_ok : (ltb max_quic_cid_len (length dcid) || ltb (length packet - 6) (length dcid))
          ≡ false =
        ground arith in
      let more : leb (length packet) (6 + length dcid) ≡ false = ground arith in
      let scid_ok : (ltb max_quic_cid_len (length scid)
            || ltb (length packet - (7 + length dcid)) (length scid))
          ≡ false =
        ground arith in
      rw (
        long, fixed, version_ok, supported, dcid_ok, dcid_copy, more, scid_len_read, scid_ok,
        scid_copy,
      )
