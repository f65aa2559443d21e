-- ===== src/Quic/Varint.antt =====
-- Variable-length integers, `qsr_quic_parse_varint` of src/quic_initial.c.
pub mod Safety
pub mod RoundTrip
use quic_sni_router.Base.{
  ℕ, zero, suc, ◌+◌, ◌-◌, ◌*◌, ◌/◌, ◌%◌, ◌^◌, List, [], ◌∷◌, bit_and, bit_or, length, ltb, ◌==◌,
  Result, ok, invalid, truncated, ◌>>=◌, ◌>>◌, reject_if, read,
}

-- The loop over `data[1..width)`: `result = (result << 8) | data[i]` in 64 bits. The first argument
-- counts the rounds that are left.
pub varint_loop : ℕ → ℕ → ℕ → List ℕ → Result ℕ
varint_loop zero i result bytes = ok result
varint_loop (suc n) i result bytes = do
  c ← read bytes i
  varint_loop n (i + 1) (bit_or (result * 256 % 2 ^ 64) c) bytes

-- The pair is `*value` and `*consumed`. The caller's `data + offset` and `len - offset` are the list.
pub parse_varint : List ℕ → Result (ℕ × ℕ)
parse_varint bytes = do
  reject_if (length bytes == 0) invalid
  first ← read bytes 0
  let width = 2 ^ (first / 64)
  reject_if (ltb (length bytes) width) truncated
  value ← varint_loop (width - 1) 1 (bit_and first 0x3f) bytes
  ok (value, width)
