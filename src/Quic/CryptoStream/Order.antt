-- ===== src/Quic/CryptoStream/Order.antt =====
-- The bookkeeping of the reassembly buffer: `first_received`, `last_received` and `len`.
use quic_sni_router.Base.{
  ℕ, ◌+◌, ◌≤◌, ◌<◌, ◌≡◌, ◌∙◌, ◌≢◌, ◌⊎◌, inl, inr, List, arith, ltb, ltb→lt, ltb→le, Bool-cases,
  length, get_or, replicate, All, length-replicate, Safe, IsByte, overlay, length-overlay,
  get_elem?-overlay_below, get_elem?-overlay_above, get_or_congr, All-overlay, zero, suc, refl, ok,
  All-replicate,
}
use quic_sni_router.Quic.CryptoStream.{
  CryptoStream, max_client_hello_size, store_frame, crypto_stream_init, with_frame,
}

-- Both arrays have their size, and the received bytes stand inside the marks.
pub record IsStream (s : CryptoStream) : Type 0 where
  pub bytes_size : length s.bytes ≡ max_client_hello_size
  pub received_size : length s.received ≡ max_client_hello_size
  pub bytes_are : All IsByte s.bytes
  pub last_inside : s.last_received ≤ s.len
  pub len_inside : s.len ≤ max_client_hello_size
  pub marked : (i : ℕ) → get_or s.received i 0 ≢ 0 → (s.first_received ≤ i) × (i < s.last_received)

pub get_or-replicate : (n i d : ℕ) → get_or (replicate n d) i d ≡ d
get_or-replicate zero i d = refl
get_or-replicate (suc n) zero d = refl
get_or-replicate (suc n) (suc i) d = get_or-replicate n i d

-- Where a frame was written, and where it was not.
pub received_cases :
    (received : List ℕ) (offset n i : ℕ)
    → offset + n ≤ length received
    → ((offset ≤ i) × (i < offset + n))
      ⊎ (get_or (overlay offset (replicate n 1) received) i 0 ≡ get_or received i 0)
received_cases received offset n i h = elim (Bool-cases (ltb i offset)) [
  | inl below ↦ inr (
      get_or_congr _ received i i 0
        (get_elem?-overlay_below offset (replicate n 1) received i (ltb→lt _ _ below)))
  | inr from ↦ elim (Bool-cases (ltb i (offset + n))) [
    | inl inside ↦ inl (ltb→le _ _ from, ltb→lt _ _ inside)
    | inr above ↦ inr (
        get_or_congr _ received i i 0 (
          get_elem?-overlay_above offset (replicate n 1) received i
            (omega (arith, ltb→le _ _ above, length-replicate {0} {A = ℕ} n 1))))
  ]
]

pub store_frame-ok :
    (s : CryptoStream) (offset : ℕ) (chunk : List ℕ)
    → IsStream s
    → offset + length chunk ≤ max_client_hello_size
    → store_frame s offset chunk ≡ ok (with_frame s offset chunk)
unfolding store_frame
store_frame-ok s offset chunk good h =
    let size = good.bytes_size in let size' = good.received_size in ground arith

pub with_frame-IsStream :
    (s : CryptoStream) (offset : ℕ) (chunk : List ℕ)
    → IsStream s
    → All IsByte chunk
    → offset + length chunk ≤ max_client_hello_size
    → IsStream (with_frame s offset chunk)
unfolding with_frame
with_frame-IsStream s offset chunk good all h = record {
  bytes_size = length-overlay offset chunk s.bytes ∙ good.bytes_size;
  received_size =
      length-overlay offset (replicate (length chunk) 1) s.received ∙ good.received_size;
  bytes_are = All-overlay IsByte offset chunk s.bytes all good.bytes_are;
  last_inside = ground arith;
  len_inside = ground arith;
  marked = λ i there.
      elim (received_cases s.received offset (length chunk) i (omega (arith, good.received_size))) [
        | inl (low, high) ↦ ground arith
        | inr same ↦ let old = good.marked i (λ z. there (same ∙ z)) in ground arith
      ];
}

-- A frame of bytes that fits a well-formed buffer is stored without an access outside it, and the
-- buffer stays well formed.
pub store_frame-Safe :
    (s : CryptoStream) (offset : ℕ) (chunk : List ℕ)
    → IsStream s
    → All IsByte chunk
    → offset + length chunk ≤ max_client_hello_size
    → Safe IsStream (store_frame s offset chunk)
store_frame-Safe s offset chunk good all h =
    rw (store_frame-ok s offset chunk good h) (with_frame-IsStream s offset chunk good all h)

pub crypto_stream_init-IsStream : IsStream crypto_stream_init
unfolding crypto_stream_init
crypto_stream_init-IsStream = record {
  bytes_size = length-replicate {0} {A = ℕ} max_client_hello_size 0;
  received_size = length-replicate {0} {A = ℕ} max_client_hello_size 0;
  bytes_are = All-replicate IsByte max_client_hello_size 0 (omega arith);
  last_inside = omega arith;
  len_inside = omega arith;
  marked = λ i there. absurd (there (get_or-replicate max_client_hello_size i 0));
}
