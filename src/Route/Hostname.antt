-- ===== src/Route/Hostname.antt =====
-- Host names of routes, `normalize_hostname` of src/route_table.c. A C string is the list of its
-- bytes before the final zero.
pub mod Agreement
pub mod Idempotent
use quic_sni_router.Base.{
  ℕ, ◌+◌, ◌-◌, Bool, not, ◌&&◌, ◌||◌, Option, none, some, List, [], ◌∷◌, ltb, leb, ◌==◌,
  if◌then◌else◌, length, get_or,
}
use mathlib.Core.Option

-- The `c + ('a' - 'A')` of an upper-case letter.
unfoldable pub to_lower : ℕ → ℕ
to_lower c = if leb b'A' c && leb c b'Z' then c + 32 else c

-- The test on a byte that is not a dot.
unfoldable pub is_host_byte : ℕ → Bool
is_host_byte c =
    (leb b'a' c && leb c b'z')
    || ((leb b'A' c && leb c b'Z') || ((leb b'0' c && leb c b'9') || c == b'-'))

-- The loop, and the test behind it. `prev` is `out[i - 1]`, and the list is what the loop has not
-- reached. The value is what it writes to `out` from there on.
unfoldable pub normalize_loop : ℕ → ℕ → List ℕ → Option (List ℕ)
normalize_loop prev label_len [] =
    if label_len == 0 || (ltb 63 label_len || prev == b'-') then none else some []
normalize_loop prev label_len (c ∷ rest) =
    let dotted = Option.map (λ out. b'.' ∷ out) (normalize_loop b'.' 0 rest) in
    let lowered =
      Option.map (λ out. to_lower c ∷ out) (normalize_loop (to_lower c) (label_len + 1) rest) in
    if c == b'.'
    then (if label_len == 0 || (ltb 63 label_len || prev == b'-') then none else dotted)
    else if not (is_host_byte c)
    then none
    else if label_len == 0 && c == b'-'
    then none
    else lowered

-- `normalize_hostname(input, out, out_len)`
unfoldable pub normalize_hostname : List ℕ → ℕ → Option (List ℕ)
normalize_hostname input out_len =
    let len = length input in
    if len == 0
      || (leb out_len len || (get_or input 0 0 == b'.' || get_or input (len - 1) 0 == b'.'))
    then none
    else normalize_loop 0 0 input
