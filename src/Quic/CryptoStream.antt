-- ===== src/Quic/CryptoStream.antt =====
-- The reassembly buffer of CRYPTO frames: `qsr_crypto_stream_t` of include/qsr/quic_frames.h and its
-- functions in src/quic_frames.c.
pub mod Order
pub mod Merge
pub mod Reassembly
use quic_sni_router.Base.{
  ℕ, zero, suc, ◌+◌, ◌-◌, ◌*◌, ◌/◌, ◌%◌, ◌^◌, ◌≤◌, ◌<◌, min, max, bit_and, bit_or, bit_xor, ◌≡◌,
  refl, sym, ap, ap₂, ◌∙◌, ◌≢◌, ◌↔◌, ◌⊎◌, inl, inr, Bool, true, false, not, ◌&&◌, ◌||◌, Option,
  none, some, List, [], ◌∷◌, ◌++◌, map, arith, ltb, leb, ◌==◌, if◌then◌else◌, ltb→lt, lt→ltb,
  le→ltb, ltb→le, ==_iff, ==_refl, ==_ne, Bool-cases, Option-cases, length, get_elem?, get_or, set,
  take, drop, replicate, All, length-append, length-set, length-take, length-drop, length-replicate,
  get_elem?-lt, get_elem?-ge, lt_of_get_elem?, get_elem?-set_self, get_elem?-set_ne,
  get_elem?-replicate, get_elem?-append_lt, get_elem?-drop, take-length_append, drop-length_append,
  take-append-drop, All-get_elem?, All-drop, All-take, All-append, Status, invalid, truncated,
  unsupported, not_found, full, Result, ok, err, fault, ◌>>=◌, ◌>>◌, reject_if, Safe, Safe-bind,
  Safe-reject_if, Safe-weaken, Safe_ok, Safe-ne-fault, IsByte, option_read, read, advance, copy,
  same_bytes, same_bytes_refl, same_bytes→eq, read-in, read-eq, advance-in, copy-in,
  get_elem?_of_drop, big_endian, Safe-read, Safe-advance, Safe-copy, drop-add, overlay,
  length-overlay, get_elem?-overlay_in, get_elem?-overlay_below, get_elem?-overlay_above,
  get_or_congr, get_or_of_get_elem?, All-overlay, All-set, All-replicate, All-get_or,
  get_or-set_self, get_or-set_ne, Result-cases, take_ext, get_elem?-take,
}

-- `QSR_MAX_CLIENT_HELLO_SIZE`
abbrev pub max_client_hello_size : ℕ
max_client_hello_size = 8192

pub record CryptoStream : Type 0 where
  pub bytes : List ℕ
  pub received : List ℕ
  pub len : ℕ
  pub first_received : ℕ
  pub last_received : ℕ

-- `qsr_crypto_stream_init`
unfoldable pub crypto_stream_init : CryptoStream
crypto_stream_init = record {
  bytes = replicate max_client_hello_size 0;
  received = replicate max_client_hello_size 0;
  len = 0;
  first_received = max_client_hello_size;
  last_received = 0;
}

-- One round of the loop of `qsr_crypto_stream_merge`, on `dest->data` and `dest->received`.
pub merge_at : CryptoStream → ℕ → List ℕ × List ℕ → List ℕ × List ℕ
merge_at src i (bytes, received) =
    if get_or src.received i 0 == 0
    then (bytes, received)
    else (set bytes i (get_or src.bytes i 0), set received i 1)

-- `for (i = start; i < end; i++)`; the first argument is `end - i`.
pub merge_loop : CryptoStream → ℕ → ℕ → List ℕ × List ℕ → List ℕ × List ℕ
merge_loop src zero i dest = dest
merge_loop src (suc n) i dest = merge_loop src n (i + 1) (merge_at src i dest)

-- `start` and `end` of the merge.
pub merge_start : CryptoStream → ℕ
merge_start src = if ltb src.first_received max_client_hello_size then src.first_received else 0

pub merge_end : CryptoStream → ℕ
merge_end src =
    if ltb src.last_received max_client_hello_size then src.last_received else max_client_hello_size

-- `qsr_crypto_stream_merge`, without the tests for null pointers.
unfoldable pub crypto_stream_merge : CryptoStream → CryptoStream → CryptoStream
crypto_stream_merge dest src =
    let start = merge_start src in
    let (bytes, received) =
      merge_loop src (merge_end src - start) start (dest.bytes, dest.received) in
    record {
      bytes = bytes;
      received = received;
      len = if ltb dest.len src.len then src.len else dest.len;
      first_received =
          if ltb src.first_received dest.first_received
          then src.first_received
          else dest.first_received;
      last_received =
          if ltb dest.last_received src.last_received
          then src.last_received
          else dest.last_received;
    }

-- The loop's test: `len < stream->len && len < QSR_MAX_CLIENT_HELLO_SIZE && received[len] != 0`.
pub is_contiguous_at : CryptoStream → ℕ → Bool
is_contiguous_at s len =
    ltb len s.len && (ltb len max_client_hello_size && not (get_or s.received len 0 == 0))

-- The loop of `qsr_crypto_stream_contiguous_len`. `len` grows below the buffer's size, so as many
-- rounds as the buffer has bytes are enough; the test keeps the read inside the buffer.
pub contiguous_loop : ℕ → CryptoStream → ℕ → ℕ
contiguous_loop zero s len = len
contiguous_loop (suc fuel) s len =
    let more = contiguous_loop fuel s (len + 1) in if is_contiguous_at s len then more else len

unfoldable pub crypto_stream_contiguous_len : CryptoStream → ℕ
crypto_stream_contiguous_len s = contiguous_loop max_client_hello_size s 0

-- The end of a CRYPTO frame in `qsr_quic_extract_crypto`: `memcpy` and `memset` into the buffer
-- from `offset` on, and the three marks.
unfoldable pub with_frame : CryptoStream → ℕ → List ℕ → CryptoStream
with_frame s offset chunk =
    let end = offset + length chunk in
    record {
      bytes = overlay offset chunk s.bytes;
      received = overlay offset (replicate (length chunk) 1) s.received;
      len = if ltb s.len end then end else s.len;
      first_received = if ltb offset s.first_received then offset else s.first_received;
      last_received = if ltb s.last_received end then end else s.last_received;
    }

-- Outside the buffer these writes are a fault.
unfoldable pub store_frame : CryptoStream → ℕ → List ℕ → Result CryptoStream
store_frame s offset chunk =
    if leb (offset + length chunk) (length s.bytes)
      && leb (offset + length chunk) (length s.received)
    then ok (with_frame s offset chunk)
    else fault
