-- ===== src/Route/Hostname/Agreement.antt =====
-- How `normalize_hostname` of src/route_table.c and `valid_hostname` of src/tls_client_hello.c agree.
use quic_sni_router.Base.{
  ℕ, ◌+◌, ◌-◌, ◌≡◌, refl, sym, ap, ◌∙◌, inl, inr, Bool, true, false, ◌&&◌, ◌||◌, Option, none, some,
  List, [], ◌∷◌, map, arith, ltb, leb, ◌==◌, if◌then◌else◌, Bool-cases, length, get_or, All, IsByte,
  Safe, Safe-weaken,
}
use quic_sni_router.Tls.ClientHello.{client_hello_sni}
use quic_sni_router.Tls.ClientHello.Safety.{client_hello_sni-Safe}
use mathlib.Core.Option
use quic_sni_router.Route.Hostname.{to_lower, is_host_byte, normalize_loop, normalize_hostname}
use quic_sni_router.Tls.Hostname.{max_hostname_len, is_alnum, hostname_loop, valid_hostname}

host_byte_agrees : (c : ℕ) → is_host_byte c ≡ (is_alnum c || c == b'-')
unfolding is_host_byte is_alnum
host_byte_agrees c = elim (Bool-cases (leb b'0' c && leb c b'9')) [
  | inl digit ↦ ground arith
  | inr other ↦ ground arith
]

to_lower-hyphen : (c : ℕ) → (to_lower c == b'-') ≡ (c == b'-')
unfolding to_lower
to_lower-hyphen c = elim (Bool-cases (leb b'A' c && leb c b'Z')) [
  | inl upper ↦ ground arith
  | inr other ↦ ground arith
]

to_lower-dot : (c : ℕ) → (c == b'.') ≡ true → to_lower c ≡ b'.'
unfolding to_lower
to_lower-dot c dot = ground arith

-- Where the test passes, the lower-cased bytes.
abbrev lowered_if : Bool → List ℕ → Option (List ℕ)
lowered_if valid name = if valid then some (map to_lower name) else none

lowered_if-cons :
    (valid : Bool) (c : ℕ) (rest : List ℕ)
    → Option.map (λ out. to_lower c ∷ out) (lowered_if valid rest) ≡ lowered_if valid (c ∷ rest)
lowered_if-cons true c rest = refl
lowered_if-cons false c rest = refl

normalize_loop_lem :
    (prev prev' label_len : ℕ) (name : List ℕ)
    → (prev' == b'-') ≡ (prev == b'-')
    → normalize_loop prev' label_len name ≡ lowered_if (hostname_loop prev label_len name) name
unfolding normalize_loop hostname_loop
normalize_loop_lem prev prev' label_len [] same =
    rw same
      (elim (Bool-cases (prev == b'-')) [ inl hyphen ↦ ground arith | inr other ↦ ground arith ])
normalize_loop_lem prev prev' label_len (c ∷ rest) same =
    let next_label = normalize_loop_lem c (to_lower c) 0 rest (to_lower-hyphen c) in
    let next = normalize_loop_lem c (to_lower c) (label_len + 1) rest (to_lower-hyphen c) in
    elim (Bool-cases (c == b'.')) [
      | inl dot ↦
          let later =
            ap (Option.map (λ out. to_lower c ∷ out)) next_label ∙ lowered_if-cons _ c rest in
          rw (dot, same, sym (to_lower-dot c dot))
            (elim (Bool-cases (label_len == 0 || (ltb 63 label_len || prev == b'-'))) [
              | inl bad ↦ rw bad refl
              | inr good ↦ rw good later
            ])
      | inr other ↦
          let later = ap (Option.map (λ out. to_lower c ∷ out)) next ∙ lowered_if-cons _ c rest in
          rw (other, host_byte_agrees c)
            (elim (Bool-cases (is_alnum c || c == b'-')) [
              | inl allowed ↦ rw allowed (elim (Bool-cases (label_len == 0 && c == b'-')) [
                | inl bad ↦ rw bad refl
                | inr good ↦ rw good later
              ])
              | inr refused ↦ rw refused refl
            ])
    ]

-- `normalize_hostname`, given room for 256 bytes, accepts exactly the names that the ClientHello
-- parser's `valid_hostname` accepts, and writes the name with its upper-case letters made lower.
pub normalize_hostname-valid_hostname :
    (name : List ℕ)
    → normalize_hostname name 256 ≡ (if valid_hostname name then some (map to_lower name) else none)
unfolding normalize_hostname valid_hostname
normalize_hostname-valid_hostname name =
    let room : leb 256 (length name) ≡ ltb max_hostname_len (length name) = ground arith in
    rw room
      (elim (Bool-cases (
        length name == 0
        || (ltb max_hostname_len (length name)
            || (get_or name 0 0 == b'.' || get_or name (length name - 1) 0 == b'.')))) [
              | inl bad ↦ rw bad refl
              | inr good ↦ rw good (normalize_loop_lem 0 0 0 name refl)
            ])

-- Every name that the ClientHello parser takes out of any bytes is normalized by the route table, to
-- the name with its upper-case letters made lower.
pub client_hello_sni-normalize_hostname :
    (bytes : List ℕ)
    → All IsByte bytes
    → Safe
        (λ name. normalize_hostname name (max_hostname_len + 1) ≡ some (map to_lower name))
        (client_hello_sni bytes)
client_hello_sni-normalize_hostname bytes all =
    Safe-weaken _ _ (client_hello_sni bytes) (client_hello_sni-Safe bytes all) λ name good.
      normalize_hostname-valid_hostname name
      ∙ ap (λ valid. if valid then some (map to_lower name) else none) good.is_hostname
