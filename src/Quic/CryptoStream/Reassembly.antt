-- ===== src/Quic/CryptoStream/Reassembly.antt =====
-- The buffer reassembles a message: whatever frames of it arrive, in whatever order and however they
-- overlap or repeat, the prefix that is handed to the ClientHello parser is a prefix of the message.
use quic_sni_router.Base.{
  ℕ, zero, suc, ◌+◌, ◌-◌, ◌≤◌, ◌<◌, ◌≡◌, refl, ap, ◌∙◌, ◌≢◌, ◌⊎◌, inl, inr, true, false, ◌&&◌, List,
  arith, ltb, leb, ◌==◌, Bool-cases, length, get_elem?, get_or, take, drop, replicate,
  length-replicate, get_elem?-drop, overlay, get_elem?-overlay_in, get_elem?-overlay_below,
  get_elem?-overlay_above, get_or_congr, take_ext, get_elem?-take,
}
use quic_sni_router.Quic.CryptoStream.{
  max_client_hello_size, CryptoStream, crypto_stream_merge, contiguous_loop,
  crypto_stream_contiguous_len, is_contiguous_at, with_frame, crypto_stream_init,
}
use quic_sni_router.Quic.CryptoStream.Order.{IsStream, get_or-replicate}
use quic_sni_router.Quic.CryptoStream.Merge.{crypto_stream_merge_lem}

-- Every received byte is the message's byte at that position.
abbrev pub Agrees : List ℕ → CryptoStream → Type 0
Agrees message s =
    (i : ℕ)
    → get_or s.received i 0 ≢ 0
    → (i < length message) × (get_or s.bytes i 0 ≡ get_or message i 0)

module _ (s : CryptoStream) where
  -- The loop stops where its test fails, and the test passed everywhere before.
  contiguous_loop_lem :
      (fuel len : ℕ)
      → max_client_hello_size ≤ fuel + len
      → (len ≤ contiguous_loop fuel s len)
        × (is_contiguous_at s (contiguous_loop fuel s len) ≡ false)
        × ((i : ℕ) → len ≤ i → i < contiguous_loop fuel s len → is_contiguous_at s i ≡ true)
  unfolding contiguous_loop
  contiguous_loop_lem zero len h =
      (omega arith, unfold is_contiguous_at in ground arith, λ i a b. absurd (omega arith))
  contiguous_loop_lem (suc fuel) len h = elim (Bool-cases (is_contiguous_at s len)) [
    | inl go ↦
        let (low, stop, before) = contiguous_loop_lem fuel (len + 1) (omega arith) in
        rw go (
          omega arith,
          stop,
          λ i a b. elim (Bool-cases (i == len)) [
            | inl e ↦ let e' : i ≡ len = ground arith in rw e' go
            | inr ne ↦ before i (ground arith) b
          ],
        )
    | inr stop ↦ rw stop (omega arith, stop, λ i a b. absurd (omega arith))
  ]

  all_contiguous :
      (r : ℕ)
      → ((i : ℕ) → i < r → is_contiguous_at s i ≡ true)
      → (r ≤ s.len) × (r ≤ max_client_hello_size)
  unfolding is_contiguous_at
  all_contiguous zero h = omega arith
  all_contiguous (suc r) h = let last = h r (omega arith) in ground arith

  stops_at :
      (r : ℕ)
      → r ≤ s.len
      → s.len ≤ max_client_hello_size
      → is_contiguous_at s r ≡ false
      → (r ≡ s.len) ⊎ (get_or s.received r 0 ≡ 0)
  unfolding is_contiguous_at
  stops_at r below small stop = ground arith

  -- The contiguous length of a well-formed buffer is the length of the received prefix: every byte below it was received,
  -- and it ends at the end of the stream or at the first byte that is missing.
  pub contiguous_len_lem :
      IsStream s
      → (crypto_stream_contiguous_len s ≤ s.len)
        × ((i : ℕ) → i < crypto_stream_contiguous_len s → get_or s.received i 0 ≢ 0)
        × ((crypto_stream_contiguous_len s ≡ s.len)
            ⊎ (get_or s.received (crypto_stream_contiguous_len s) 0 ≡ 0))
  unfolding crypto_stream_contiguous_len
  contiguous_len_lem good =
      let (low, stop, before) = contiguous_loop_lem max_client_hello_size 0 (omega arith) in
      let (below, _) = all_contiguous _ (λ i h. before i (omega arith) h) in
      (
        below,
        λ i h. received_at i (before i (omega arith) h),
        stops_at _ below good.len_inside stop,
      )
    where
      received_at : (i : ℕ) → is_contiguous_at s i ≡ true → get_or s.received i 0 ≢ 0
      received_at i e = unfold is_contiguous_at in ground arith

-- A frame that fits a well-formed buffer and carries a part of the message, at that part's place,
-- keeps the agreement of the buffer with the message.
pub with_frame-Agrees :
    (message : List ℕ) (s : CryptoStream) (offset : ℕ) (chunk : List ℕ)
    → IsStream s
    → Agrees message s
    → offset + length chunk ≤ length message
    → offset + length chunk ≤ max_client_hello_size
    → chunk ≡ take (length chunk) (drop offset message)
    → Agrees message (with_frame s offset chunk)
unfolding with_frame
with_frame-Agrees message s offset chunk good agrees hm hs e i there =
    elim (Bool-cases (leb offset i && ltb i (offset + length chunk))) [
      | inl inside ↦ (ground arith, same_byte (i - offset) (ground arith) (ground arith))
      | inr outside ↦
          let old = agrees i (λ z. there (unwritten (ground arith) ∙ z)) in
          (old.0, untouched (ground arith) ∙ old.1)
    ]
  where
    same_byte :
        (k : ℕ)
        → i ≡ offset + k
        → k < length chunk
        → get_or (overlay offset chunk s.bytes) i 0 ≡ get_or message i 0
    same_byte k ei hk = get_or_congr (overlay offset chunk s.bytes) message i i 0 (
        rw ei (
          get_elem?-overlay_in offset chunk s.bytes k hk (omega (arith, good.bytes_size))
          ∙ chunk_at
          ∙ get_elem?-drop offset message k (offset + k) refl))
      where
        chunk_at : get_elem? chunk k ≡ get_elem? (drop offset message) k
        chunk_at =
            ap (λ t. get_elem? t k) e ∙ get_elem?-take (length chunk) (drop offset message) k hk

    unwritten :
        (i < offset) ⊎ (offset + length chunk ≤ i)
        → get_or (overlay offset (replicate (length chunk) 1) s.received) i 0
          ≡ get_or s.received i 0
    unwritten (inl below) =
        get_or_congr _ s.received i i 0 (get_elem?-overlay_below offset _ s.received i below)
    unwritten (inr above) = get_or_congr _ s.received i i 0 (
        get_elem?-overlay_above offset _ s.received i
          (omega (arith, length-replicate {0} {A = ℕ} (length chunk) 1)))

    untouched :
        (i < offset) ⊎ (offset + length chunk ≤ i)
        → get_or (overlay offset chunk s.bytes) i 0 ≡ get_or s.bytes i 0
    untouched (inl below) =
        get_or_congr _ s.bytes i i 0 (get_elem?-overlay_below offset chunk s.bytes i below)
    untouched (inr above) =
        get_or_congr _ s.bytes i i 0 (get_elem?-overlay_above offset chunk s.bytes i above)

pub crypto_stream_init-Agrees : (message : List ℕ) → Agrees message crypto_stream_init
unfolding crypto_stream_init
crypto_stream_init-Agrees message i there =
    absurd (there (get_or-replicate max_client_hello_size i 0))

-- Merging two well-formed buffers that agree with one message gives a buffer that agrees with it.
pub crypto_stream_merge-Agrees :
    (message : List ℕ) (dest src : CryptoStream)
    → IsStream dest
    → IsStream src
    → Agrees message dest
    → Agrees message src
    → Agrees message (crypto_stream_merge dest src)
crypto_stream_merge-Agrees message dest src gd gs ad as' i there =
    let (byte, mark) = crypto_stream_merge_lem dest src i gd gs in
    elim (Bool-cases (get_or src.received i 0 == 0)) [
      | inl absent ↦
          let (inside, old) = ad i (λ e. there (mark ∙ rw absent e)) in
          (inside, byte ∙ rw absent old)
      | inr present ↦ let (inside, new) = as' i (ground arith) in (inside, byte ∙ rw present new)
    ]

-- What the parser of the ClientHello is given, the contiguous prefix of a well-formed buffer that
-- agrees with a message, is a prefix of the message.
pub contiguous_prefix :
    (message : List ℕ) (s : CryptoStream)
    → IsStream s
    → Agrees message s
    → take (crypto_stream_contiguous_len s) s.bytes ≡ take (crypto_stream_contiguous_len s) message
contiguous_prefix message s good agrees =
    let (below, received, _) = contiguous_len_lem s good in
    take_ext (crypto_stream_contiguous_len s) s.bytes message 0
      (omega (arith, good.bytes_size, good.len_inside))
      (inside (crypto_stream_contiguous_len s) (λ i h. (agrees i (received i h)).0))
      (λ i h. (agrees i (received i h)).1)
  where
    inside : (r : ℕ) → ((i : ℕ) → i < r → i < length message) → r ≤ length message
    inside zero h = omega arith
    inside (suc r) h = h r (omega arith)
