-- ===== src/Quic/LongHeader/Safety.antt =====
-- `parse_long_header` on any bytes: no access outside the buffer, and what a header satisfies.
use quic_sni_router.Base.{
  ℕ, ◌+◌, ◌-◌, ◌≤◌, ◌<◌, bit_and, ◌≡◌, refl, ◌⊎◌, false, not, ◌&&◌, ◌||◌, List, arith, ltb, leb,
  ◌==◌, ltb→le, length, take, drop, All, invalid, truncated, unsupported, Safe, Safe-reject_if,
  IsByte, Safe-read, Safe-copy,
}
use quic_sni_router.Quic.LongHeader.{
  LongHeader, quic_v1, quic_v2, max_quic_cid_len, version_of, parse_long_header,
}

-- What the later stages rely on.
pub record IsHeader (bytes : List ℕ) (h : LongHeader) : Type 0 where
  pub supported : (h.version ≡ quic_v1) ⊎ (h.version ≡ quic_v2)
  pub dcid_fits : h.dcid_len ≤ max_quic_cid_len
  pub dcid_filled : length h.dcid ≡ h.dcid_len
  pub dcid_bytes : All IsByte h.dcid
  pub dcid_source : h.dcid ≡ take h.dcid_len (drop 6 bytes)
  pub scid_fits : h.scid_len ≤ max_quic_cid_len
  pub scid_filled : length h.scid ≡ h.scid_len
  pub scid_bytes : All IsByte h.scid
  pub scid_source : h.scid ≡ take h.scid_len (drop (7 + h.dcid_len) bytes)
  pub remainder : h.remainder_offset ≡ 7 + h.dcid_len + h.scid_len
  pub inside : h.remainder_offset ≤ length bytes

version_cases :
    (v : ℕ) → (not (v == quic_v1) && not (v == quic_v2)) ≡ false → (v ≡ quic_v1) ⊎ (v ≡ quic_v2)
version_cases v h = ground arith

-- On any bytes `qsr_quic_parse_long_header` stays inside the buffer. A header that it returns has a
-- supported version, connection ids of at most 20 bytes that are copies of the bytes at their
-- places in the packet, and a remainder that begins right behind them and inside the packet.
pub parse_long_header-Safe :
    (bytes : List ℕ) → All IsByte bytes → Safe (IsHeader bytes) (parse_long_header bytes)
unfolding parse_long_header
parse_long_header-Safe bytes all = Safe-reject_if _ (ltb (length bytes) 7) truncated _ λ long.
    let seven : 7 ≤ length bytes = ltb→le _ _ long in
    Safe-read _ bytes 0 _ all (omega arith) λ first hf _.
      Safe-reject_if _ (bit_and first 0x80 == 0 || bit_and first 0x40 == 0) invalid _ λ fixed.
        Safe-read _ bytes 1 _ all (omega arith) λ b1 h1 _.
          Safe-read _ bytes 2 _ all (omega arith) λ b2 h2 _.
            Safe-read _ bytes 3 _ all (omega arith) λ b3 h3 _.
              Safe-read _ bytes 4 _ all (omega arith) λ b4 h4 _.
                Safe-reject_if _
                  (not (version_of b1 b2 b3 b4 == quic_v1)
                    && not (version_of b1 b2 b3 b4 == quic_v2))
                  unsupported _
                  λ known. Safe-read _ bytes 5 _ all (omega arith) λ dl hd _.
                    Safe-reject_if _ (ltb max_quic_cid_len dl || ltb (length bytes - 6) dl) invalid
                      _
                      λ dfits.
                        let dcid_small : dl ≤ 20 = ground arith in
                        let dcid_in : 6 + dl ≤ length bytes = ground arith in
                        Safe-copy _ bytes 6 dl _ all dcid_in λ dcid dall dlen dsrc.
                          Safe-reject_if _ (leb (length bytes) (6 + dl)) truncated _ λ more.
                            let scid_at : 6 + dl < length bytes = ground arith in
                            Safe-read _ bytes (6 + dl) _ all scid_at λ sl hs _.
                              Safe-reject_if _
                                (ltb max_quic_cid_len sl || ltb (length bytes - (7 + dl)) sl)
                                invalid _
                                λ sfits.
                                  let scid_small : sl ≤ 20 = ground arith in
                                  let scid_in : 7 + dl + sl ≤ length bytes = ground arith in
                                  Safe-copy _ bytes (7 + dl) sl _ all scid_in λ scid sall slen ssrc.
                                    record {
                                      supported = version_cases _ known;
                                      dcid_fits = dcid_small;
                                      dcid_filled = dlen;
                                      dcid_bytes = dall;
                                      dcid_source = dsrc;
                                      scid_fits = scid_small;
                                      scid_filled = slen;
                                      scid_bytes = sall;
                                      scid_source = ssrc;
                                      remainder = refl;
                                      inside = scid_in;
                                    }
