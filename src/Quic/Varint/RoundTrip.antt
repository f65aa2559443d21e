-- ===== src/Quic/Varint/RoundTrip.antt =====
-- `parse_varint` reads back the encoding of RFC 9000, section 16, in the shortest width.
use quic_sni_router.Base.{
  Bool-cases, ltb→lt, inl, inr, ℕ, suc, ◌+◌, ◌-◌, ◌*◌, ◌/◌, ◌%◌, ◌^◌, ◌≤◌, ◌<◌, bit_and, ◌≡◌, refl,
  ◌∙◌, inl, inr, some, List, [], ◌∷◌, ◌++◌, arith, ltb, if◌then◌else◌, ltb→lt, le→ltb, ==_ne,
  Bool-cases, length, get_elem?, drop, All, length-append, ok, ◌>>=◌, IsByte, read, read-eq,
  get_elem?_of_drop, big_endian,
}
use quic_sni_router.Base.Bits.{low_six}
use quic_sni_router.Quic.Varint.{varint_loop, parse_varint}
use native.Mathlib.Nat.{pow-suc, pow-le-pow_right}
use quic_sni_router.Quic.Varint.Safety.{loop_round}

-- The encoding, with the two bits of the width on top of the first byte.
abbrev pub encode_varint : ℕ → List ℕ
encode_varint v =
    if ltb v (2 ^ 6)
    then (64 * 0 + v) ∷ []
    else if ltb v (2 ^ 14)
    then (64 + v / 256) ∷ v % 256 ∷ []
    else if ltb v (2 ^ 30)
    then (128 + v / 2 ^ 24) ∷ (v / 2 ^ 16 % 256) ∷ (v / 256 % 256) ∷ (v % 256) ∷ []
    else (192 + v / 2 ^ 56)
      ∷ (v / 2 ^ 48 % 256)
      ∷ (v / 2 ^ 40 % 256)
      ∷ (v / 2 ^ 32 % 256)
      ∷ (v / 2 ^ 24 % 256)
      ∷ (v / 2 ^ 16 % 256)
      ∷ (v / 256 % 256)
      ∷ (v % 256)
      ∷ []

-- A first byte with the prefix `p` over the six bits `b`.
first_byte : (p b : ℕ) → p < 4 → b < 64 → (bit_and (64 * p + b) 0x3f ≡ b) × ((64 * p + b) / 64 ≡ p)
first_byte p b hp hb = (omega (arith, low_six (64 * p + b) (omega arith)), omega arith)

-- What is left once the tests have passed.
parse_varint_step :
    (first : ℕ) (tail : List ℕ)
    → 2 ^ (first / 64) ≤ length tail + 1
    → parse_varint (first ∷ tail) ≡ (
        varint_loop (2 ^ (first / 64) - 1) 1 (bit_and first 0x3f) (first ∷ tail) >>= λ value.
        ok (value, 2 ^ (first / 64)))
unfolding parse_varint read
parse_varint_step first tail h = rw (
  ==_ne (suc (length tail)) 0 (omega arith),
  le→ltb (suc (length tail)) (2 ^ (first / 64)) (omega arith),
)

-- The same, for the byte that the encoder writes.
parse_varint_prefix :
    (prefix b : ℕ) (tail : List ℕ)
    → prefix < 4
    → b < 64
    → 2 ^ prefix ≤ length tail + 1
    → parse_varint ((64 * prefix + b) ∷ tail) ≡ (
        varint_loop (2 ^ prefix - 1) 1 b ((64 * prefix + b) ∷ tail) >>= λ value.
        ok (value, 2 ^ prefix))
parse_varint_prefix prefix b tail hp hb h =
    let (f, e) = first_byte prefix b hp hb in parse_varint_step _ tail (rw e h) ∙ rw (e, f)

varint_loop_step :
    (n i result c : ℕ) (bytes : List ℕ)
    → get_elem? bytes i ≡ some c
    → result < 2 ^ 56
    → c < 256
    → varint_loop (suc n) i result bytes ≡ varint_loop n (i + 1) (result * 256 + c) bytes
unfolding varint_loop
varint_loop_step n i result c bytes e hr hc = rw (read-eq bytes i e, loop_round result c hr hc)

-- The loop reads big-endian. `k` says how far the value has grown.
varint_loop-big_endian :
    (cs : List ℕ) (i result k : ℕ) (bytes rest : List ℕ)
    → drop i bytes ≡ cs ++ rest
    → All IsByte cs
    → result < 64 * 256 ^ k
    → k + length cs ≤ 7
    → varint_loop (length cs) i result bytes ≡ ok (big_endian result cs)
varint_loop-big_endian [] i result k bytes rest e all hr hk = unfold varint_loop in refl
varint_loop-big_endian (c ∷ cs) i result k bytes rest e all hr hk =
    let (found, next) = get_elem?_of_drop i bytes e in
    let most : 256 ^ k ≤ 256 ^ 6 = pow-le-pow_right {n = 256} (omega arith) {j = 6} (omega arith) in
    let grown : result * 256 + c < 64 * 256 ^ suc k = rw pow-suc (omega (arith, all.0)) in
    varint_loop_step (length cs) i result c bytes found (omega arith) all.0
    ∙ varint_loop-big_endian cs (i + 1) (result * 256 + c) (suc k) bytes rest next all.1 grown
        (omega arith)

-- A prefix, six bits and the bytes that the prefix announces.
parse_varint-big_endian :
    (prefix b : ℕ) (cs rest : List ℕ)
    → prefix < 4
    → b < 64
    → 2 ^ prefix ≡ suc (length cs)
    → length cs ≤ 7
    → All IsByte cs
    → parse_varint ((64 * prefix + b) ∷ (cs ++ rest)) ≡ ok (big_endian b cs, 2 ^ prefix)
parse_varint-big_endian prefix b cs rest hp hb hw hl all =
    let rounds : 2 ^ prefix - 1 ≡ length cs = omega arith in
    parse_varint_prefix prefix b (cs ++ rest) hp hb (omega (arith, length-append cs rest))
    ∙ rw (
      rounds,
      varint_loop-big_endian cs 1 b 0 ((64 * prefix + b) ∷ (cs ++ rest)) rest refl all hb
          (omega arith),
    )

-- `parse_varint` reads back every number below 2 ^ 62 from its shortest encoding, and takes exactly the
-- bytes of the encoding, whatever follows them.
pub parse_varint-encode_varint :
    (v : ℕ) (rest : List ℕ)
    → v < 2 ^ 62
    → parse_varint (encode_varint v ++ rest) ≡ ok (v, length (encode_varint v))
parse_varint-encode_varint v rest h = elim (Bool-cases (ltb v (2 ^ 6))) [
  | inl a ↦ rw a (encoded 0 v [] (omega arith) (ltb→lt _ _ a) refl (omega arith) (omega arith) refl)
  | inr a ↦ rw a (elim (Bool-cases (ltb v (2 ^ 14))) [
    | inl b ↦ rw b (
        encoded 1 (v / 256) (v % 256 ∷ []) (omega arith) (omega (arith, ltb→lt _ _ b)) refl
          (omega arith) (omega arith) (omega arith))
    | inr b ↦ rw b (elim (Bool-cases (ltb v (2 ^ 30))) [
      | inl c ↦ rw c (
          encoded 2 (v / 2 ^ 24) (v / 2 ^ 16 % 256 ∷ v / 256 % 256 ∷ v % 256 ∷ []) (omega arith)
            (omega (arith, ltb→lt _ _ c)) refl (omega arith) (omega arith) (omega arith))
      | inr c ↦ rw c (
          encoded 3 (v / 2 ^ 56)
            (v / 2 ^ 48 % 256
              ∷ v / 2 ^ 40 % 256
              ∷ v / 2 ^ 32 % 256
              ∷ v / 2 ^ 24 % 256
              ∷ v / 2 ^ 16 % 256
              ∷ v / 256 % 256
              ∷ v % 256
              ∷ [])
            (omega arith) (omega arith) refl (omega arith) (omega arith) (omega arith))
    ])
  ])
]
  where
    encoded :
        (prefix b : ℕ) (cs : List ℕ)
        → prefix < 4
        → b < 64
        → 2 ^ prefix ≡ suc (length cs)
        → length cs ≤ 7
        → All IsByte cs
        → big_endian b cs ≡ v
        → parse_varint ((64 * prefix + b) ∷ (cs ++ rest)) ≡ ok (v, suc (length cs))
    encoded prefix b cs hp hb hw hl all e =
        parse_varint-big_endian prefix b cs rest hp hb hw hl all ∙ rw (e, hw)
