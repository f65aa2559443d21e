-- ===== src/Hash.antt =====
-- The keyed hash, `qsr_siphash24` of src/hash.c, on 64-bit words.
use quic_sni_router.Base.{
  ℕ, zero, suc, ◌+◌, ◌-◌, ◌*◌, ◌/◌, ◌%◌, ◌^◌, bit_or, bit_xor, List, [], ◌∷◌, length, get_or, drop,
}

-- `ROTL`
unfoldable pub rotl : ℕ → ℕ → ℕ
rotl x b = bit_or (x * 2 ^ b % 2 ^ 64) (x / 2 ^ (64 - b))

-- `U8TO64_LE`: eight bytes, the lowest first.
unfoldable pub word_at : List ℕ → ℕ → ℕ
word_at bytes i = bit_or (get_or bytes i 0) (
    bit_or (get_or bytes (i + 1) 0 * 2 ^ 8) (
      bit_or (get_or bytes (i + 2) 0 * 2 ^ 16) (
        bit_or (get_or bytes (i + 3) 0 * 2 ^ 24) (
          bit_or (get_or bytes (i + 4) 0 * 2 ^ 32) (
            bit_or (get_or bytes (i + 5) 0 * 2 ^ 40)
              (bit_or (get_or bytes (i + 6) 0 * 2 ^ 48) (get_or bytes (i + 7) 0 * 2 ^ 56)))))))

-- The local variables `v0` to `v3`.
pub record SipState : Type 0 where
  pub v0 : ℕ
  pub v1 : ℕ
  pub v2 : ℕ
  pub v3 : ℕ

-- `SIPROUND`, each assignment a `let`.
unfoldable pub sip_round : SipState → SipState
sip_round s =
    let a0 = (s.v0 + s.v1) % 2 ^ 64 in
    let a1 = bit_xor (rotl s.v1 13) a0 in
    let b0 = rotl a0 32 in
    let a2 = (s.v2 + s.v3) % 2 ^ 64 in
    let a3 = bit_xor (rotl s.v3 16) a2 in
    let c0 = (b0 + a3) % 2 ^ 64 in
    let b3 = bit_xor (rotl a3 21) c0 in
    let b2 = (a2 + a1) % 2 ^ 64 in
    let b1 = bit_xor (rotl a1 17) b2 in record { v0 = c0; v1 = b1; v2 = rotl b2 32; v3 = b3 }

-- `v3 ^= m; SIPROUND; SIPROUND; v0 ^= m;`
unfoldable pub absorb : SipState → ℕ → SipState
absorb s m =
    let t = sip_round (sip_round (record s { v3 = bit_xor s.v3 m })) in
    record t { v0 = bit_xor t.v0 m }

-- `for (; data != end; data += 8)`; the number is the words left.
unfoldable pub absorb_words : ℕ → List ℕ → ℕ → SipState → SipState
absorb_words zero bytes i s = s
absorb_words (suc n) bytes i s = absorb_words n bytes (i + 8) (absorb s (word_at bytes i))

-- The switch over the trailing bytes: the bytes that are left, from bit `shift` on.
unfoldable pub trailing : List ℕ → ℕ → ℕ → ℕ
trailing [] shift b = b
trailing (x ∷ rest) shift b = trailing rest (shift + 8) (bit_or b (x * 2 ^ shift))

unfoldable pub siphash24 : List ℕ → List ℕ → ℕ
siphash24 bytes key =
    let k0 = word_at key 0 in
    let k1 = word_at key 8 in
    let start : SipState = record {
      v0 = bit_xor 0x736f6d6570736575 k0;
      v1 = bit_xor 0x646f72616e646f6d k1;
      v2 = bit_xor 0x6c7967656e657261 k0;
      v3 = bit_xor 0x7465646279746573 k1;
    } in
    let words = length bytes / 8 in
    let b = trailing (drop (words * 8) bytes) 0 (length bytes * 2 ^ 56 % 2 ^ 64) in
    let s = absorb (absorb_words words bytes 0 start) b in
    let marked : SipState = record s { v2 = bit_xor s.v2 0xff } in
    let t = sip_round (sip_round (sip_round (sip_round marked))) in
    bit_xor (bit_xor (bit_xor t.v0 t.v1) t.v2) t.v3
