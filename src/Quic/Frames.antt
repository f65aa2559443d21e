-- ===== src/Quic/Frames.antt =====
-- The frames of an Initial packet's plaintext, `qsr_quic_extract_crypto` of src/quic_frames.c.
pub mod Safety
use quic_sni_router.Base.{
  ℕ, zero, suc, ◌+◌, ◌-◌, ◌/◌, Bool, true, false, ◌||◌, List, ltb, ◌==◌, if◌then◌else◌, length,
  invalid, unsupported, not_found, Result, ok, err, fault, ◌>>=◌, ◌>>◌, reject_if, read, advance,
  copy,
}
use quic_sni_router.Quic.Varint.{parse_varint}
use quic_sni_router.Quic.CryptoStream.{CryptoStream, max_client_hello_size, store_frame}

-- `qsr_quic_parse_varint(plaintext + offset, plaintext_len - offset, &v, &c)`, then `offset += c`.
pub next_varint : List ℕ → ℕ → Result (ℕ × ℕ)
next_varint bytes offset = do
  rest ← advance bytes offset
  (v, c) ← parse_varint rest
  ok (v, offset + c)

-- The same where the value is not used.
pub skip_varint : List ℕ → ℕ → Result ℕ
skip_varint bytes offset = do (v, next) ← next_varint bytes offset; ok next

-- `for (i = 0; i < range_count; i++)` over the gap and the length of each ACK range.
pub skip_ranges : ℕ → List ℕ → ℕ → Result ℕ
skip_ranges zero bytes offset = ok offset
skip_ranges (suc n) bytes offset = do
  o1 ← skip_varint bytes offset
  o2 ← skip_varint bytes o1
  skip_ranges n bytes o2

-- The three ECN counts of a frame of type 0x03.
pub skip_ecn : ℕ → List ℕ → ℕ → Result ℕ
skip_ecn frame_type bytes offset =
    if frame_type == 0x03
    then (do o1 ← skip_varint bytes offset; o2 ← skip_varint bytes o1; skip_varint bytes o2)
    else ok offset

-- An ACK frame behind its type.
pub skip_ack : ℕ → List ℕ → ℕ → Result ℕ
skip_ack frame_type bytes offset = do
  o1 ← skip_varint bytes offset
  o2 ← skip_varint bytes o1
  (range_count, o3) ← next_varint bytes o2
  o4 ← skip_varint bytes o3
  reject_if (ltb ((length bytes - o4) / 2) range_count) invalid
  o5 ← skip_ranges range_count bytes o4
  skip_ecn frame_type bytes o5

-- A CRYPTO frame behind its type: the new offset, and the stream with the frame's bytes.
pub crypto_frame : List ℕ → ℕ → CryptoStream → Result (ℕ × CryptoStream)
crypto_frame bytes offset s = do
  (crypto_offset, o1) ← next_varint bytes offset
  (crypto_len, o2) ← next_varint bytes o1
  reject_if
      (ltb max_client_hello_size crypto_offset
        || (ltb max_client_hello_size crypto_len
            || (ltb (length bytes - o2) crypto_len
                || ltb (max_client_hello_size - crypto_len) crypto_offset)))
      invalid
  chunk ← copy bytes o2 crypto_len
  s' ← store_frame s crypto_offset chunk
  ok (o2 + crypto_len, s')

-- The tests on the frame's type, in their order.
pub by_type : ℕ → List ℕ → ℕ → CryptoStream → Result (ℕ × Bool × CryptoStream)
by_type frame_type bytes offset s =
    if frame_type == 0x00 || frame_type == 0x01
    then ok (offset, false, s)
    else if frame_type == 0x02 || frame_type == 0x03
    then (do next ← skip_ack frame_type bytes offset; ok (next, false, s))
    else if frame_type == 0x06
    then (do (next, s') ← crypto_frame bytes offset s; ok (next, true, s'))
    else err unsupported

-- One round of the loop: the new offset, whether the frame was a CRYPTO frame, and the stream.
pub one_frame : List ℕ → ℕ → CryptoStream → Result (ℕ × Bool × CryptoStream)
one_frame bytes offset s = do
  frame_type ← read bytes offset
  by_type frame_type bytes (offset + 1) s

-- `while (offset < plaintext_len)`. An error leaves the frames before it in the stream, so the
-- stream stands beside the status. Each round takes a byte at least.
pub extract_loop : ℕ → List ℕ → ℕ → Bool → CryptoStream → CryptoStream × Result (Unit {0})
extract_loop zero bytes offset found s = (s, fault)
extract_loop (suc fuel) bytes offset found s =
    let status : Result (Unit {0}) = if found then ok tt else err not_found in
    let round : CryptoStream × Result (Unit {0}) = elim (one_frame bytes offset s) [
      | ok (next, crypto, s') ↦ extract_loop fuel bytes next (found || crypto) s'
      | err e ↦ (s, err e)
      | fault ↦ (s, fault)
    ] in
    if ltb offset (length bytes) then round else (s, status)

pub extract_crypto : List ℕ → CryptoStream → CryptoStream × Result (Unit {0})
extract_crypto bytes s =
    if ltb max_client_hello_size (length bytes)
    then (s, err invalid)
    else extract_loop (length bytes + 1) bytes 0 false s
