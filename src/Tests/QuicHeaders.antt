-- ===== src/Tests/QuicHeaders.antt =====
-- Varints, long headers and Initials.
use quic_sni_router.Base.{
  ℕ, bit_and, ◌≡◌, refl, inr, List, [], ◌∷◌, ◌++◌, arith, ok, length, replicate, Safe,
  are_bytes-IsByte,
}
use quic_sni_router.Quic.Varint.{parse_varint}
use quic_sni_router.Quic.Varint.Safety.{Fits, parse_varint-Safe}
use quic_sni_router.Quic.Varint.RoundTrip.{encode_varint, parse_varint-encode_varint}
use quic_sni_router.Quic.LongHeader.{quic_v1, quic_v2, parse_long_header}
use quic_sni_router.Quic.LongHeader.Safety.{IsHeader, parse_long_header-Safe}
use quic_sni_router.Quic.LongHeader.Layout.{encode_long_header, parse_long_header-encode}
use quic_sni_router.Quic.Initial.{parse_initial}
use quic_sni_router.Quic.Initial.Safety.{IsInitial, parse_initial-Safe}

abbrev two_bytes : List ℕ
two_bytes = 0x40 ∷ 25 ∷ []

abbrev dcid_bytes : List ℕ
dcid_bytes = replicate 8 7

abbrev initial_packet : List ℕ
initial_packet = encode_long_header 0xc0 quic_v1 dcid_bytes [] ++ (0 ∷ 36 ∷ replicate 36 1)

parse_varint-Safe_example : Safe (Fits two_bytes) (parse_varint two_bytes)
parse_varint-Safe_example = parse_varint-Safe two_bytes (are_bytes-IsByte two_bytes refl)

parse_varint-encode_varint_example :
    parse_varint (encode_varint 15293 ++ (9 ∷ [])) ≡ ok (15293, length (encode_varint 15293))
parse_varint-encode_varint_example = parse_varint-encode_varint 15293 (9 ∷ []) (omega arith)

parse_long_header-Safe_example : Safe (IsHeader initial_packet) (parse_long_header initial_packet)
parse_long_header-Safe_example =
    parse_long_header-Safe initial_packet (are_bytes-IsByte initial_packet refl)

parse_long_header-encode_example :
    parse_long_header (encode_long_header 0xc0 quic_v2 dcid_bytes (5 ∷ []) ++ (1 ∷ []))
    ≡ ok (record {
      version = quic_v2;
      type_bits = bit_and 0xc0 0x30;
      dcid = dcid_bytes;
      dcid_len = 8;
      scid = 5 ∷ [];
      scid_len = 1;
      remainder_offset = 16;
    })
parse_long_header-encode_example =
    parse_long_header-encode 0xc0 quic_v2 dcid_bytes (5 ∷ []) (1 ∷ []) refl (inr refl) (omega arith)
      (omega arith)

parse_initial-Safe_example : Safe (IsInitial initial_packet) (parse_initial initial_packet)
parse_initial-Safe_example =
    parse_initial-Safe initial_packet (are_bytes-IsByte initial_packet refl)
