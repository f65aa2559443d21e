-- ===== src/Quic/Frames/Safety.antt =====
-- `extract_crypto` on any plaintext: it ends, and it stays inside both buffers.
use quic_sni_router.Base.{
  ℕ, zero, suc, ◌+◌, ◌-◌, ◌/◌, ◌≤◌, ◌<◌, ◌≡◌, ◌≢◌, inl, inr, Bool, true, false, ◌||◌, List, arith,
  ltb, ◌==◌, ltb→lt, Bool-cases, length, All, invalid, ok, fault, Safe, Safe-bind, Safe-reject_if,
  Safe-weaken, Safe_ok, Safe-ne-fault, IsByte, Safe-read, Safe-advance, Safe-copy, Result-cases,
}
use quic_sni_router.Quic.Varint.{parse_varint}
use quic_sni_router.Quic.Varint.Safety.{Fits, parse_varint-Safe}
use quic_sni_router.Quic.CryptoStream.{CryptoStream, max_client_hello_size, store_frame}
use quic_sni_router.Quic.CryptoStream.Order.{IsStream, store_frame-Safe}
use quic_sni_router.Quic.Frames.{
  next_varint, skip_varint, skip_ranges, skip_ecn, skip_ack, crypto_frame, by_type, one_frame,
  extract_loop, extract_crypto,
}

-- An offset behind another, and inside the plaintext.
abbrev Behind : List ℕ → ℕ → ℕ → Type 0
Behind bytes offset next = (offset ≤ next) × (next ≤ length bytes)

positive_width : (bytes : List ℕ) (r : ℕ × ℕ) → Fits bytes r → (1 ≤ r.1) × (r.1 ≤ length bytes)
positive_width bytes r (inl e, fits, _) = (omega arith, fits)
positive_width bytes r (inr (inl e), fits, _) = (omega arith, fits)
positive_width bytes r (inr (inr (inl e)), fits, _) = (omega arith, fits)
positive_width bytes r (inr (inr (inr e)), fits, _) = (omega arith, fits)

extract_loop_next :
    (fuel : ℕ) (bytes : List ℕ) (offset : ℕ) (found : Bool) (s : CryptoStream) {next : ℕ}
    {crypto : Bool} {s' : CryptoStream}
    → ltb offset (length bytes) ≡ true
    → one_frame bytes offset s ≡ ok (next, crypto, s')
    → extract_loop (suc fuel) bytes offset found s
      ≡ extract_loop fuel bytes next (found || crypto) s'
unfolding extract_loop
extract_loop_next fuel bytes offset found s more e = rw (more, e)

module _ (bytes : List ℕ) (all : All IsByte bytes) where
  next_varint-Safe :
      (offset : ℕ)
      → offset ≤ length bytes
      → Safe (λ r. Behind bytes offset r.1) (next_varint bytes offset)
  unfolding next_varint
  next_varint-Safe offset h = Safe-advance _ bytes offset _ all h λ rest rall rlen _.
      Safe-bind _ _ (parse_varint rest) _ (parse_varint-Safe rest rall) λ (v, c) fits.
        let (low, high) = positive_width rest (v, c) fits in (omega arith, omega arith)

  skip_varint-Safe :
      (offset : ℕ) → offset ≤ length bytes → Safe (Behind bytes offset) (skip_varint bytes offset)
  unfolding skip_varint
  skip_varint-Safe offset h =
      Safe-bind _ _ (next_varint bytes offset) _ (next_varint-Safe offset h) λ (v, next) b. b

  skip_ranges-Safe :
      (n offset : ℕ)
      → offset ≤ length bytes
      → Safe (Behind bytes offset) (skip_ranges n bytes offset)
  unfolding skip_ranges
  skip_ranges-Safe zero offset h = (omega arith, h)
  skip_ranges-Safe (suc n) offset h =
      Safe-bind _ _ (skip_varint bytes offset) _ (skip_varint-Safe offset h) λ o1 b1.
        Safe-bind _ _ (skip_varint bytes o1) _ (skip_varint-Safe o1 b1.1) λ o2 b2.
          Safe-weaken _ _ (skip_ranges n bytes o2) (skip_ranges-Safe n o2 b2.1)
            λ o3 b3. (omega arith, b3.1)

  skip_ecn-Safe :
      (frame_type offset : ℕ)
      → offset ≤ length bytes
      → Safe (Behind bytes offset) (skip_ecn frame_type bytes offset)
  unfolding skip_ecn
  skip_ecn-Safe frame_type offset h = elim (Bool-cases (frame_type == 0x03)) [
    | inl e ↦ rw e (
        Safe-bind _ _ (skip_varint bytes offset) _ (skip_varint-Safe offset h) λ o1 b1.
          Safe-bind _ _ (skip_varint bytes o1) _ (skip_varint-Safe o1 b1.1) λ o2 b2.
            Safe-weaken _ _ (skip_varint bytes o2) (skip_varint-Safe o2 b2.1)
              λ o3 b3. (omega arith, b3.1))
    | inr e ↦ rw e (omega arith, h)
  ]

  skip_ack-Safe :
      (frame_type offset : ℕ)
      → offset ≤ length bytes
      → Safe (Behind bytes offset) (skip_ack frame_type bytes offset)
  unfolding skip_ack
  skip_ack-Safe frame_type offset h =
      Safe-bind _ _ (skip_varint bytes offset) _ (skip_varint-Safe offset h) λ o1 b1.
        Safe-bind _ _ (skip_varint bytes o1) _ (skip_varint-Safe o1 b1.1) λ o2 b2.
          Safe-bind _ _ (next_varint bytes o2) _ (next_varint-Safe o2 b2.1) λ (count, o3) b3.
            Safe-bind _ _ (skip_varint bytes o3) _ (skip_varint-Safe o3 b3.1) λ o4 b4.
              Safe-reject_if _ (ltb ((length bytes - o4) / 2) count) invalid _ λ few.
                Safe-bind _ _ (skip_ranges count bytes o4) _ (skip_ranges-Safe count o4 b4.1)
                  λ o5 b5.
                    Safe-weaken _ _ (skip_ecn frame_type bytes o5)
                      (skip_ecn-Safe frame_type o5 b5.1) λ o6 b6. (omega arith, b6.1)

  crypto_frame-Safe :
      (offset : ℕ) (s : CryptoStream)
      → offset ≤ length bytes
      → IsStream s
      → Safe (λ r. Behind bytes offset r.0 × IsStream r.1) (crypto_frame bytes offset s)
  unfolding crypto_frame
  crypto_frame-Safe offset s h good =
      Safe-bind _ _ (next_varint bytes offset) _ (next_varint-Safe offset h) λ (co, o1) b1.
        Safe-bind _ _ (next_varint bytes o1) _ (next_varint-Safe o1 b1.1) λ (cl, o2) b2.
          Safe-reject_if _
            (ltb max_client_hello_size co
              || (ltb max_client_hello_size cl
                  || (ltb (length bytes - o2) cl || ltb (max_client_hello_size - cl) co)))
            invalid _
            λ fits.
              let inside : o2 + cl ≤ length bytes = ground arith in
              let room : co + cl ≤ max_client_hello_size = ground arith in
              Safe-copy _ bytes o2 cl _ all inside λ chunk call clen _.
                Safe-bind _ _ (store_frame s co chunk) _
                  (store_frame-Safe s co chunk good call (omega arith))
                  λ s' good'. ((omega arith, inside), good')

  by_type-Safe :
      (frame_type offset : ℕ) (s : CryptoStream)
      → offset ≤ length bytes
      → IsStream s
      → Safe (λ r. Behind bytes offset r.0 × IsStream r.2) (by_type frame_type bytes offset s)
  unfolding by_type
  by_type-Safe frame_type offset s h good =
      ground (arith, skip_ack-Safe frame_type offset h, crypto_frame-Safe offset s h good)

  one_frame-Safe :
      (offset : ℕ) (s : CryptoStream)
      → offset < length bytes
      → IsStream s
      → Safe (λ r. (offset < r.0) × (r.0 ≤ length bytes) × IsStream r.2) (one_frame bytes offset s)
  unfolding one_frame
  one_frame-Safe offset s h good = Safe-read _ bytes offset _ all h λ frame_type byte _.
      Safe-weaken _ _ (by_type frame_type bytes (offset + 1) s)
        (by_type-Safe frame_type (offset + 1) s (omega arith) good) λ r b. (omega arith, b.0.1, b.1)

  extract_loop_safe :
      (fuel offset : ℕ) (found : Bool) (s : CryptoStream)
      → length bytes < fuel + offset
      → offset ≤ length bytes
      → IsStream s
      → ((extract_loop fuel bytes offset found s).1 ≢ fault)
        × IsStream (extract_loop fuel bytes offset found s).0
  extract_loop_safe zero offset found s h inside good = absurd (omega arith)
  extract_loop_safe (suc fuel) offset found s h inside good =
      elim (Bool-cases (ltb offset (length bytes))) [
        | inl more ↦ elim (Result-cases (one_frame bytes offset s)) [
          | inl ((next, crypto, s'), e) ↦
              let (later, inside', good') =
                Safe_ok _ _ (one_frame-Safe offset s (ltb→lt _ _ more) good) e in
              rw (extract_loop_next fuel bytes offset found s more e)
                (extract_loop_safe fuel next (found || crypto) s' (omega arith) inside' good')
          | inr (inl (status, e)) ↦ unfold extract_loop in rw (more, e) (λ p. cc, good)
          | inr (inr e) ↦
              absurd (Safe-ne-fault _ _ (one_frame-Safe offset s (ltb→lt _ _ more) good) e)
        ]
        | inr done ↦
            unfold extract_loop in
            rw done (elim (Bool-cases found) [
              | inl e ↦ rw e (λ p. cc, good)
              | inr e ↦ rw e (λ p. cc, good)
            ])
      ]

  -- `qsr_quic_extract_crypto` on any plaintext of bytes and a well-formed buffer ends with a status,
  -- stays inside the plaintext and inside the buffer, and keeps the buffer well formed, also where it
  -- stops at an error.
  pub extract_crypto_safe :
      (s : CryptoStream)
      → IsStream s
      → ((extract_crypto bytes s).1 ≢ fault) × IsStream (extract_crypto bytes s).0
  unfolding extract_crypto
  extract_crypto_safe s good = elim (Bool-cases (ltb max_client_hello_size (length bytes))) [
    | inl long ↦ rw long (λ p. cc, good)
    | inr fits ↦
        rw fits (extract_loop_safe (length bytes + 1) 0 false s (omega arith) (omega arith) good)
  ]
