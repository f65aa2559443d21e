-- ===== src/Tls/Reader.antt =====
-- The forward-only reader of src/tls_client_hello.c, `reader_t` and the `r_` functions.
pub mod Bounds
use quic_sni_router.Base.{
  ℕ, zero, suc, ◌+◌, ◌-◌, ◌*◌, ◌/◌, ◌%◌, ◌^◌, ◌≤◌, ◌<◌, min, max, bit_and, bit_or, bit_xor, ◌≡◌,
  refl, sym, ap, ap₂, ◌∙◌, ◌≢◌, ◌↔◌, ◌⊎◌, inl, inr, Bool, true, false, not, ◌&&◌, ◌||◌, Option,
  none, some, List, [], ◌∷◌, ◌++◌, map, arith, ok, err, fault, invalid, truncated, unsupported,
  not_found, full, ltb, leb, ◌==◌, if◌then◌else◌, ltb→lt, lt→ltb, le→ltb, ltb→le, ==_iff, ==_refl,
  ==_ne, Bool-cases, Option-cases, length, get_elem?, get_or, set, take, drop, replicate, All,
  length-append, length-set, length-take, length-drop, length-replicate, get_elem?-lt, get_elem?-ge,
  lt_of_get_elem?, get_elem?-set_self, get_elem?-set_ne, get_elem?-replicate, get_elem?-append_lt,
  get_elem?-drop, get_elem?_of_drop, get_elem?-take, drop-add, take-length_append,
  drop-length_append, take-append-drop, All-get_elem?, All-drop, All-take, All-append, overlay,
  length-overlay, get_elem?-overlay_in, get_elem?-overlay_below, get_elem?-overlay_above,
  get_or_congr, get_or_of_get_elem?, All-overlay, All-set, All-replicate, All-get_or,
  get_or-set_self, get_or-set_ne, take_ext, IsByte, option_read, read, advance, copy, same_bytes,
  same_bytes_refl, same_bytes→eq, read-in, read-eq, advance-in, copy-in, big_endian, Safe-read,
  Safe-advance, Safe-copy, Status, Result, ◌>>=◌, ◌>>◌, reject_if, Safe, Safe-bind, Safe-reject_if,
  Safe-weaken, Safe_ok, Safe-ne-fault, Result-cases,
}

-- `reader_t`. The list is what `data` points at.
pub record Reader : Type 0 where
  pub bytes : List ℕ
  pub end : ℕ
  pub offset : ℕ

-- `r_init`
unfoldable pub init : List ℕ → ℕ → Reader
init bytes len = record { bytes = bytes; end = len; offset = 0 }

-- `r_has`
unfoldable pub has : Reader → ℕ → Bool
has r n = leb (r.offset + n) r.end

-- `r_remaining`. A reader's offset does not pass its end, so the difference does not wrap.
unfoldable pub remaining : Reader → ℕ
remaining r = r.end - r.offset

-- `r_u8`
unfoldable pub u8 : Reader → Result (ℕ × Reader)
u8 r = do
  reject_if (not (has r 1)) truncated
  b ← read r.bytes r.offset
  ok (b, record r { offset = r.offset + 1 })

-- `r_u16`
unfoldable pub u16 : Reader → Result (ℕ × Reader)
u16 r = do
  reject_if (not (has r 2)) truncated
  b0 ← read r.bytes r.offset
  b1 ← read r.bytes (r.offset + 1)
  ok (bit_or (b0 * 2 ^ 8) b1 % 2 ^ 16, record r { offset = r.offset + 2 })

-- `r_u24`
unfoldable pub u24 : Reader → Result (ℕ × Reader)
u24 r = do
  reject_if (not (has r 3)) truncated
  b0 ← read r.bytes r.offset
  b1 ← read r.bytes (r.offset + 1)
  b2 ← read r.bytes (r.offset + 2)
  ok (bit_or (bit_or (b0 * 2 ^ 16) (b1 * 2 ^ 8)) b2, record r { offset = r.offset + 3 })

-- `r_skip`
unfoldable pub skip : Reader → ℕ → Result Reader
skip r n = do reject_if (not (has r n)) truncated; ok (record r { offset = r.offset + n })

-- `r_subreader`: the child, and the parent behind it.
unfoldable pub subreader : Reader → ℕ → Result (Reader × Reader)
subreader r n = do
  reject_if (not (has r n)) truncated
  rest ← advance r.bytes r.offset
  ok (record { bytes = rest; end = n; offset = 0 }, record r { offset = r.offset + n })

-- `r_subreader_available`: the child, the parent behind it, and whether the child was cut short.
unfoldable pub subreader_available : Reader → ℕ → Result (Reader × Reader × Bool)
subreader_available r declared_len = do
  let available = remaining r
  let child_len : ℕ = if ltb declared_len available then declared_len else available
  rest ← advance r.bytes r.offset
  reject_if (child_len == 0 && ltb 0 declared_len) truncated
  ok (
    record { bytes = rest; end = child_len; offset = 0 },
    record r { offset = r.offset + child_len },
    ltb child_len declared_len,
  )

-- `r_ptr` with the `n` bytes that the caller reads behind it.
unfoldable pub view : Reader → ℕ → Result (List ℕ)
view r n = copy r.bytes r.offset n
