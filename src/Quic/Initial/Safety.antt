-- ===== src/Quic/Initial/Safety.antt =====
-- `parse_initial` on any bytes: no access outside the packet, and what the decryption relies on.
use quic_sni_router.Base.{
  ℕ, ◌+◌, ◌-◌, ◌≤◌, ◌<◌, ◌≡◌, refl, ◌⊎◌, inl, inr, not, List, arith, ltb, ◌==◌, ltb→le, length, All,
  invalid, truncated, Safe, Safe-bind, Safe-reject_if, IsByte, Safe-advance,
}
use quic_sni_router.Quic.Varint.{parse_varint}
use quic_sni_router.Quic.Varint.Safety.{Fits, parse_varint-Safe}
use quic_sni_router.Quic.LongHeader.{quic_v1, quic_v2, max_quic_cid_len, parse_long_header}
use quic_sni_router.Quic.LongHeader.Safety.{parse_long_header-Safe}
use quic_sni_router.Quic.Initial.{
  Initial, min_initial_payload_len, expected_initial_type_bits, parse_initial,
}

-- The token, and behind it the payload, lie inside the packet; the payload has room for a packet
-- number of four bytes, a sample of 16 and an authentication tag of 16.
pub record IsInitial (bytes : List ℕ) (p : Initial) : Type 0 where
  pub supported : (p.version ≡ quic_v1) ⊎ (p.version ≡ quic_v2)
  pub dcid_long : 8 ≤ p.dcid_len
  pub dcid_fits : p.dcid_len ≤ max_quic_cid_len
  pub dcid_filled : length p.dcid ≡ p.dcid_len
  pub scid_fits : p.scid_len ≤ max_quic_cid_len
  pub scid_filled : length p.scid ≡ p.scid_len
  pub token_behind : 7 + p.dcid_len + p.scid_len < p.token_offset
  pub payload_behind : p.token_offset + p.token_len < p.payload_offset
  pub payload_inside : p.payload_offset + p.payload_len ≤ length bytes
  pub payload_long : min_initial_payload_len ≤ p.payload_len
  pub number_first : p.packet_number_offset ≡ p.payload_offset

positive_width : (bytes : List ℕ) (r : ℕ × ℕ) → Fits bytes r → (1 ≤ r.1) × (r.1 ≤ length bytes)
positive_width bytes r (inl e, fits, _) = (omega arith, fits)
positive_width bytes r (inr (inl e), fits, _) = (omega arith, fits)
positive_width bytes r (inr (inr (inl e)), fits, _) = (omega arith, fits)
positive_width bytes r (inr (inr (inr e)), fits, _) = (omega arith, fits)

-- On any bytes `qsr_quic_parse_initial` stays inside the packet. An Initial that it returns has a
-- supported version, a DCID of 8 to 20 bytes, an SCID of at most 20, and a token and a payload of
-- at least 36 bytes that lie inside the packet in this order.
pub parse_initial-Safe :
    (bytes : List ℕ) → All IsByte bytes → Safe (IsInitial bytes) (parse_initial bytes)
unfolding parse_initial
parse_initial-Safe bytes all =
    Safe-bind _ _ (parse_long_header bytes) _ (parse_long_header-Safe bytes all) λ h good.
      Safe-reject_if _ (not (h.type_bits == expected_initial_type_bits h.version)) invalid _
        λ typed. Safe-reject_if _ (ltb h.dcid_len 8) invalid _ λ long.
          Safe-advance _ bytes h.remainder_offset _ all good.inside λ rest rall rlen rsrc.
            Safe-bind _ _ (parse_varint rest) _ (parse_varint-Safe rest rall) λ (tl, used) fits.
              let (u1, u2) = positive_width rest (tl, used) fits in
              let at = h.remainder_offset + used in
              Safe-reject_if _ (ltb (length bytes - at) tl) truncated _ λ tfits.
                let token_in : at + tl ≤ length bytes = omega (arith, ltb→le _ _ tfits) in
                Safe-advance _ bytes (at + tl) _ all token_in λ rest' rall' rlen' rsrc'.
                  Safe-bind _ _ (parse_varint rest') _ (parse_varint-Safe rest' rall')
                    λ (pl, used') fits'.
                      let (w1, w2) = positive_width rest' (pl, used') fits' in
                      let pat = at + tl + used' in
                      Safe-reject_if _ (ltb (length bytes - pat) pl) truncated _ λ pfits.
                        Safe-reject_if _ (ltb pl min_initial_payload_len) invalid _ λ plong.
                          record {
                            supported = good.supported;
                            dcid_long = ltb→le _ _ long;
                            dcid_fits = good.dcid_fits;
                            dcid_filled = good.dcid_filled;
                            scid_fits = good.scid_fits;
                            scid_filled = good.scid_filled;
                            token_behind = omega (arith, good.remainder);
                            payload_behind = omega arith;
                            payload_inside = omega (arith, ltb→le _ _ pfits);
                            payload_long = ltb→le _ _ plong;
                            number_first = refl;
                          }
