-- ===== src/Tests/QuicStream.antt =====
-- CRYPTO frames and the reassembly buffer.
use quic_sni_router.Base.{
  ℕ, ◌≤◌, ◌<◌, ◌≡◌, refl, ◌≢◌, ◌⊎◌, List, [], ◌∷◌, arith, fault, ◌==◌, if◌then◌else◌, get_or, take,
  Safe, are_bytes-IsByte,
}
use quic_sni_router.Quic.CryptoStream.{
  CryptoStream, crypto_stream_init, crypto_stream_merge, crypto_stream_contiguous_len, with_frame,
  store_frame,
}
use quic_sni_router.Quic.CryptoStream.Order.{
  IsStream, with_frame-IsStream, store_frame-Safe, crypto_stream_init-IsStream,
}
use quic_sni_router.Quic.CryptoStream.Merge.{crypto_stream_merge_lem, crypto_stream_merge-IsStream}
use quic_sni_router.Quic.CryptoStream.Reassembly.{
  Agrees, contiguous_len_lem, with_frame-Agrees, crypto_stream_init-Agrees,
  crypto_stream_merge-Agrees, contiguous_prefix,
}
use quic_sni_router.Quic.Frames.{extract_crypto}
use quic_sni_router.Quic.Frames.Safety.{extract_crypto_safe}

abbrev message : List ℕ
message = 10 ∷ 20 ∷ 30 ∷ 40 ∷ []

-- The second half of the message, and the first.
abbrev second_half : CryptoStream
second_half = with_frame crypto_stream_init 2 (30 ∷ 40 ∷ [])

abbrev first_half : CryptoStream
first_half = with_frame crypto_stream_init 0 (10 ∷ 20 ∷ [])

second_half-IsStream : IsStream second_half
second_half-IsStream =
    with_frame-IsStream crypto_stream_init 2 (30 ∷ 40 ∷ []) crypto_stream_init-IsStream
      (are_bytes-IsByte (30 ∷ 40 ∷ []) refl) (omega arith)

first_half-IsStream : IsStream first_half
first_half-IsStream =
    with_frame-IsStream crypto_stream_init 0 (10 ∷ 20 ∷ []) crypto_stream_init-IsStream
      (are_bytes-IsByte (10 ∷ 20 ∷ []) refl) (omega arith)

with_frame-Agrees_example : Agrees message (with_frame crypto_stream_init 2 (30 ∷ 40 ∷ []))
with_frame-Agrees_example =
    with_frame-Agrees message crypto_stream_init 2 (30 ∷ 40 ∷ []) crypto_stream_init-IsStream
      (crypto_stream_init-Agrees message) (omega arith) (omega arith) refl

second_half-Agrees : Agrees message second_half
second_half-Agrees =
    with_frame-Agrees message crypto_stream_init 2 (30 ∷ 40 ∷ []) crypto_stream_init-IsStream
      (crypto_stream_init-Agrees message) (omega arith) (omega arith) refl

first_half-Agrees : Agrees message first_half
first_half-Agrees =
    with_frame-Agrees message crypto_stream_init 0 (10 ∷ 20 ∷ []) crypto_stream_init-IsStream
      (crypto_stream_init-Agrees message) (omega arith) (omega arith) refl

crypto_stream_merge-Agrees_example : Agrees message (crypto_stream_merge first_half second_half)
crypto_stream_merge-Agrees_example =
    crypto_stream_merge-Agrees message first_half second_half first_half-IsStream
      second_half-IsStream first_half-Agrees second_half-Agrees

crypto_stream_merge-IsStream_example : IsStream (crypto_stream_merge first_half second_half)
crypto_stream_merge-IsStream_example =
    crypto_stream_merge-IsStream first_half second_half first_half-IsStream second_half-IsStream

crypto_stream_merge_lem_example :
    (get_or (crypto_stream_merge first_half second_half).bytes 3 0 ≡ (
      if get_or second_half.received 3 0 == 0
      then get_or first_half.bytes 3 0
      else get_or second_half.bytes 3 0))
    × (get_or (crypto_stream_merge first_half second_half).received 3 0
        ≡ (if get_or second_half.received 3 0 == 0 then get_or first_half.received 3 0 else 1))
crypto_stream_merge_lem_example =
    crypto_stream_merge_lem first_half second_half 3 first_half-IsStream second_half-IsStream

contiguous_len_lem_example :
    (crypto_stream_contiguous_len first_half ≤ first_half.len)
    × ((i : ℕ) → i < crypto_stream_contiguous_len first_half → get_or first_half.received i 0 ≢ 0)
    × ((crypto_stream_contiguous_len first_half ≡ first_half.len)
        ⊎ (get_or first_half.received (crypto_stream_contiguous_len first_half) 0 ≡ 0))
contiguous_len_lem_example = contiguous_len_lem first_half first_half-IsStream

contiguous_prefix_example :
    take (crypto_stream_contiguous_len first_half) first_half.bytes
    ≡ take (crypto_stream_contiguous_len first_half) message
contiguous_prefix_example =
    contiguous_prefix message first_half first_half-IsStream first_half-Agrees

store_frame-Safe_example : Safe IsStream (store_frame first_half 2 (30 ∷ 40 ∷ []))
store_frame-Safe_example =
    store_frame-Safe first_half 2 (30 ∷ 40 ∷ []) first_half-IsStream
      (are_bytes-IsByte (30 ∷ 40 ∷ []) refl) (omega arith)

-- A PING and a CRYPTO frame.
abbrev plaintext : List ℕ
plaintext = 1 ∷ 6 ∷ 0 ∷ 2 ∷ 10 ∷ 20 ∷ []

extract_crypto_safe_example :
    ((extract_crypto plaintext crypto_stream_init).1 ≢ fault)
    × IsStream (extract_crypto plaintext crypto_stream_init).0
extract_crypto_safe_example =
    extract_crypto_safe plaintext (are_bytes-IsByte plaintext refl) crypto_stream_init
      crypto_stream_init-IsStream
