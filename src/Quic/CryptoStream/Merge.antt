-- ===== src/Quic/CryptoStream/Merge.antt =====
-- What `crypto_stream_merge` leaves at each position of the buffer.
use quic_sni_router.Base.{
  ℕ, zero, suc, ◌+◌, ◌-◌, ◌≤◌, ◌<◌, ◌≡◌, refl, ◌∙◌, ◌≢◌, ◌⊎◌, inl, inr, Bool, true, false, not,
  ◌&&◌, List, arith, ltb, leb, ◌==◌, if◌then◌else◌, Bool-cases, length, get_or, All, length-set,
  All-set, All-get_or, get_or-set_self, get_or-set_ne, IsByte,
}
use quic_sni_router.Quic.CryptoStream.{
  max_client_hello_size, CryptoStream, merge_at, merge_loop, crypto_stream_merge, merge_start,
  merge_end,
}
use quic_sni_router.Quic.CryptoStream.Order.{IsStream}

-- Which positions the loop of the merge copies.
abbrev pub picked : CryptoStream → ℕ → ℕ → ℕ → Bool
picked src n i j = leb i j && (ltb j (i + n) && not (get_or src.received j 0 == 0))

module _ (src : CryptoStream) where
  length-merge_at :
      (i : ℕ) (bytes received : List ℕ)
      → (length (merge_at src i (bytes, received)).0 ≡ length bytes)
        × (length (merge_at src i (bytes, received)).1 ≡ length received)
  unfolding merge_at
  length-merge_at i bytes received =
      ground (arith, length-set bytes i (get_or src.bytes i 0), length-set received i 1)

  merge_at_lem :
      (i j : ℕ) (bytes received : List ℕ)
      → i < length bytes
      → i < length received
      → (get_or (merge_at src i (bytes, received)).0 j 0
          ≡ (if picked src 1 i j then get_or src.bytes j 0 else get_or bytes j 0))
        × (get_or (merge_at src i (bytes, received)).1 j 0
            ≡ (if picked src 1 i j then 1 else get_or received j 0))
  unfolding merge_at
  merge_at_lem i j bytes received hb hr = ground (
    arith,
    get_or-set_self bytes i (get_or src.bytes i 0) 0 hb,
    get_or-set_self received i 1 0 hr,
    get_or-set_ne bytes i j (get_or src.bytes i 0) 0,
    get_or-set_ne received i j 1 0,
  )

  merge_loop_lem :
      (n i j : ℕ) (bytes received : List ℕ)
      → i + n ≤ length bytes
      → i + n ≤ length received
      → (get_or (merge_loop src n i (bytes, received)).0 j 0
          ≡ (if picked src n i j then get_or src.bytes j 0 else get_or bytes j 0))
        × (get_or (merge_loop src n i (bytes, received)).1 j 0
            ≡ (if picked src n i j then 1 else get_or received j 0))
  unfolding merge_loop
  merge_loop_lem zero i j bytes received hb hr = ground arith
  merge_loop_lem (suc n) i j bytes received hb hr =
      let (lb, lr) = length-merge_at i bytes received in
      ground (
        arith,
        merge_at_lem i j bytes received,
        merge_loop_lem n (i + 1) j (merge_at src i (bytes, received)).0
            (merge_at src i (bytes, received)).1,
      )

  length-merge_loop :
      (n i : ℕ) (bytes received : List ℕ)
      → (length (merge_loop src n i (bytes, received)).0 ≡ length bytes)
        × (length (merge_loop src n i (bytes, received)).1 ≡ length received)
  unfolding merge_loop
  length-merge_loop zero i bytes received = (refl, refl)
  length-merge_loop (suc n) i bytes received =
      let (b, r) = length-merge_at i bytes received in
      let (b', r') =
        length-merge_loop n (i + 1) (merge_at src i (bytes, received)).0
          (merge_at src i (bytes, received)).1 in
      (b' ∙ b, r' ∙ r)

  merge_loop-IsByte :
      (n i : ℕ) (bytes received : List ℕ)
      → All IsByte src.bytes
      → All IsByte bytes
      → All IsByte (merge_loop src n i (bytes, received)).0
  unfolding merge_loop
  merge_loop-IsByte zero i bytes received hs hb = hb
  merge_loop-IsByte (suc n) i bytes received hs hb =
      merge_loop-IsByte n (i + 1) (merge_at src i (bytes, received)).0
        (merge_at src i (bytes, received)).1 hs (one (Bool-cases (get_or src.received i 0 == 0)))
    where
      one :
          ((get_or src.received i 0 == 0) ≡ true) ⊎ ((get_or src.received i 0 == 0) ≡ false)
          → All IsByte (merge_at src i (bytes, received)).0
      one (inl e) = unfold merge_at in rw e hb
      one (inr e) =
          unfold merge_at in
          rw e (
            All-set IsByte bytes i (get_or src.bytes i 0) hb
              (All-get_or IsByte src.bytes i 0 hs (omega arith)))

-- A byte that `src` received lies inside its marks, so the loop takes exactly the received bytes.
picked-received :
    (src : CryptoStream) (i : ℕ)
    → IsStream src
    → picked src (merge_end src - merge_start src) (merge_start src) i
      ≡ not (get_or src.received i 0 == 0)
unfolding merge_start merge_end
picked-received src i good = elim (Bool-cases (get_or src.received i 0 == 0)) [
  | inl none_there ↦ rw none_there (ground arith)
  | inr there ↦
      let (low, high) = good.marked i (ground arith) in
      ground (arith, good.last_inside, good.len_inside)
]

-- The loop stays inside the buffer, for any marks.
merge_room :
    (src : CryptoStream)
    → merge_start src + (merge_end src - merge_start src) ≤ max_client_hello_size
unfolding merge_start merge_end
merge_room src = ground arith

-- The merge of two well-formed buffers takes every byte that `src` received, keeps the others of
-- `dest`, and sets the mark where `src` received and keeps the mark of `dest` elsewhere.
pub crypto_stream_merge_lem :
    (dest src : CryptoStream) (i : ℕ)
    → IsStream dest
    → IsStream src
    → (get_or (crypto_stream_merge dest src).bytes i 0
        ≡ (if get_or src.received i 0 == 0 then get_or dest.bytes i 0 else get_or src.bytes i 0))
      × (get_or (crypto_stream_merge dest src).received i 0
          ≡ (if get_or src.received i 0 == 0 then get_or dest.received i 0 else 1))
unfolding crypto_stream_merge
crypto_stream_merge_lem dest src i gd gs = ground (
  arith,
  merge_room src,
  picked-received src i gs,
  merge_loop_lem src (merge_end src - merge_start src) (merge_start src) i dest.bytes dest.received,
)

-- The merge of two well-formed buffers is well formed.
pub crypto_stream_merge-IsStream :
    (dest src : CryptoStream)
    → IsStream dest
    → IsStream src
    → IsStream (crypto_stream_merge dest src)
crypto_stream_merge-IsStream dest src gd gs =
    let n = merge_end src - merge_start src in
    let (size, size') = length-merge_loop src n (merge_start src) dest.bytes dest.received in
    let at = crypto_stream_merge_lem dest src in
    record {
      bytes_size = unfold crypto_stream_merge in size ∙ gd.bytes_size;
      received_size = unfold crypto_stream_merge in size' ∙ gd.received_size;
      bytes_are =
          unfold crypto_stream_merge in
          merge_loop-IsByte src n (merge_start src) dest.bytes dest.received gs.bytes_are
            gd.bytes_are;
      last_inside = unfold crypto_stream_merge in ground arith;
      len_inside = unfold crypto_stream_merge in ground arith;
      marked = λ i there. marked_there i there;
    }
  where
    marked_there :
        (i : ℕ)
        → get_or (crypto_stream_merge dest src).received i 0 ≢ 0
        → ((crypto_stream_merge dest src).first_received ≤ i)
          × (i < (crypto_stream_merge dest src).last_received)
    marked_there i there = elim (Bool-cases (get_or src.received i 0 == 0)) [
      | inl absent ↦
          let old =
            gd.marked i (λ e. there ((crypto_stream_merge_lem dest src i gd gs).1 ∙ rw absent e)) in
          unfold crypto_stream_merge in ground arith
      | inr present ↦
          let old = gs.marked i (ground arith) in unfold crypto_stream_merge in ground arith
    ]
