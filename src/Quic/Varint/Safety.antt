-- ===== src/Quic/Varint/Safety.antt =====
-- `parse_varint` on any bytes: no read outside the buffer, and the ranges of what it returns.
use quic_sni_router.Base.{
  ℕ, zero, suc, ◌+◌, ◌-◌, ◌*◌, ◌/◌, ◌%◌, ◌^◌, ◌≤◌, ◌<◌, ◌≡◌, ◌⊎◌, List, bit_and, bit_or, length,
  ltb, ltb→le, ◌==◌, ok, invalid, truncated, ◌>>=◌, read, read-in, IsByte, All, Safe, Safe-bind,
  Safe-reject_if, arith,
}
use quic_sni_router.Base.Bits.{low_six, bit_or_byte}
use quic_sni_router.Quic.Varint.{varint_loop, parse_varint}
use native.Mathlib.Nat.{pow-suc, one-le-pow}

-- One round keeps the value below the next power of 256, so nothing is shifted out of 64 bits.
pub loop_round :
    (result c : ℕ) → result < 2 ^ 56 → c < 256 → bit_or (result * 256 % 2 ^ 64) c ≡ result * 256 + c
loop_round result c hr hc =
    let e : result * 256 % 2 ^ 64 ≡ result * 256 = omega arith in rw e (bit_or_byte result c hc)

pow_round : (bound n : ℕ) → bound * 256 ^ suc n ≡ bound * 256 * 256 ^ n
pow_round bound n = rw pow-suc (omega arith)

le-mul_pos : (m k : ℕ) → 1 ≤ k → m ≤ m * k
le-mul_pos m k h = grind arith

-- `bound` is a bound of the value so far; `top` is what `n` more rounds make of it.
varint_loop-Safe :
    (n i result bound : ℕ) (bytes : List ℕ)
    → All IsByte bytes
    → i + n ≤ length bytes
    → result < bound
    → bound * 256 ^ n ≤ 2 ^ 62
    → Safe (λ value. value < bound * 256 ^ n) (varint_loop n i result bytes)
unfolding varint_loop
varint_loop-Safe zero i result bound bytes all hi hr hb = omega arith
varint_loop-Safe (suc n) i result bound bytes all hi hr hb =
    Safe-bind _ _ (read bytes i) _ (read-in bytes i all (omega arith)) λ c (byte, _).
      let top = pow_round bound n in
      let small : result < 2 ^ 56 =
        omega (arith, le-mul_pos (bound * 256) (256 ^ n) (one-le-pow n 256 (omega arith))) in
      let step : bit_or (result * 256 % 2 ^ 64) c < bound * 256 =
        omega (arith, loop_round result c small byte) in
      rw top
        (varint_loop-Safe n (i + 1) _ (bound * 256) bytes all (omega arith) step (rw (← top) hb))

-- The value, and the number of bytes that it took.
abbrev pub Fits : List ℕ → ℕ × ℕ → Type 0
Fits bytes r =
    ((r.1 ≡ 1) ⊎ (r.1 ≡ 2) ⊎ (r.1 ≡ 4) ⊎ (r.1 ≡ 8))
    × (r.1 ≤ length bytes)
    × (r.0 < 64 * 256 ^ (r.1 - 1))

-- The loop for each of the four widths.
width-Safe :
    (prefix start : ℕ) (bytes : List ℕ)
    → prefix < 4
    → start < 64
    → 2 ^ prefix ≤ length bytes
    → All IsByte bytes
    → Safe
        (Fits bytes)
        (varint_loop (2 ^ prefix - 1) 1 start bytes >>= λ value. ok (value, 2 ^ prefix))
width-Safe zero start bytes hp hs hl all =
    ground (arith, varint_loop-Safe 0 1 start 64 bytes all (omega arith) hs (omega arith))
width-Safe (suc zero) start bytes hp hs hl all =
    ground (arith, varint_loop-Safe 1 1 start 64 bytes all (omega arith) hs (omega arith))
width-Safe (suc (suc zero)) start bytes hp hs hl all =
    ground (arith, varint_loop-Safe 3 1 start 64 bytes all (omega arith) hs (omega arith))
width-Safe (suc (suc (suc zero))) start bytes hp hs hl all =
    ground (arith, varint_loop-Safe 7 1 start 64 bytes all (omega arith) hs (omega arith))
width-Safe (suc (suc (suc (suc prefix)))) start bytes hp hs hl all = absurd (omega arith)

-- `qsr_quic_parse_varint` on any buffer of bytes reads nothing outside it; if it succeeds it has
-- taken 1, 2, 4 or 8 bytes that the buffer has, and the value is below 2 ^ (8 * bytes - 2).
pub parse_varint-Safe : (bytes : List ℕ) → All IsByte bytes → Safe (Fits bytes) (parse_varint bytes)
unfolding parse_varint
parse_varint-Safe bytes all = Safe-reject_if _ (length bytes == 0) invalid _ λ nonempty.
    Safe-bind _ _ (read bytes 0) _ (read-in bytes 0 all (ground arith)) λ first (byte, _).
      Safe-reject_if _ (ltb (length bytes) (2 ^ (first / 64))) truncated _ λ fits.
        width-Safe (first / 64) (bit_and first 0x3f) bytes (omega arith)
          (omega (arith, low_six first byte)) (ltb→le _ _ fits) all
