-- ===== src/Route/Hostname/Idempotent.antt =====
-- A normalized host name is normalized to itself.
use quic_sni_router.Route.Hostname.{to_lower, normalize_hostname}
use quic_sni_router.Base.{
  ℕ, zero, suc, ◌+◌, ◌-◌, ◌≡◌, refl, sym, ap, ap₂, ◌∙◌, inl, inr, Bool, true, false, ◌&&◌, none,
  some, List, [], ◌∷◌, map, arith, leb, ◌==◌, Bool-cases, length, get_or,
}
use quic_sni_router.Tls.Hostname.{is_alnum, hostname_loop, valid_hostname}
use quic_sni_router.Route.Hostname.Agreement.{normalize_hostname-valid_hostname}

to_lower-to_lower : (c : ℕ) → to_lower (to_lower c) ≡ to_lower c
unfolding to_lower
to_lower-to_lower c = elim (Bool-cases (leb b'A' c && leb c b'Z')) [
  | inl upper ↦ ground arith
  | inr other ↦ ground arith
]

to_lower-is_alnum : (c : ℕ) → is_alnum (to_lower c) ≡ is_alnum c
unfolding to_lower is_alnum
to_lower-is_alnum c = elim (Bool-cases (leb b'A' c && leb c b'Z')) [
  | inl upper ↦ ground arith
  | inr other ↦ ground arith
]

to_lower-is_dot : (c : ℕ) → (to_lower c == b'.') ≡ (c == b'.')
unfolding to_lower
to_lower-is_dot c = elim (Bool-cases (leb b'A' c && leb c b'Z')) [
  | inl upper ↦ ground arith
  | inr other ↦ ground arith
]

to_lower-is_hyphen : (c : ℕ) → (to_lower c == b'-') ≡ (c == b'-')
unfolding to_lower
to_lower-is_hyphen c = elim (Bool-cases (leb b'A' c && leb c b'Z')) [
  | inl upper ↦ ground arith
  | inr other ↦ ground arith
]

lower_twice : (name : List ℕ) → map to_lower (map to_lower name) ≡ map to_lower name
lower_twice [] = refl
lower_twice (c ∷ name) = ap₂ (λ x xs. x ∷ xs) (to_lower-to_lower c) (lower_twice name)

length-map : (name : List ℕ) → length (map to_lower name) ≡ length name
length-map [] = refl
length-map (c ∷ name) = ap suc (length-map name)

get_or-map :
    (name : List ℕ) (i : ℕ) → (get_or (map to_lower name) i 0 == b'.') ≡ (get_or name i 0 == b'.')
get_or-map [] i = refl
get_or-map (c ∷ name) zero = to_lower-is_dot c
get_or-map (c ∷ name) (suc i) = get_or-map name i

hostname_loop-lower :
    (prev prev' n : ℕ) (name : List ℕ)
    → (prev' == b'-') ≡ (prev == b'-')
    → hostname_loop prev' n (map to_lower name) ≡ hostname_loop prev n name
unfolding hostname_loop
hostname_loop-lower prev prev' n [] same = rw same refl
hostname_loop-lower prev prev' n (c ∷ name) same =
    rw
      (
        same,
        to_lower-is_dot c,
        to_lower-is_alnum c,
        to_lower-is_hyphen c,
        hostname_loop-lower c (to_lower c) 0 name (to_lower-is_hyphen c),
        hostname_loop-lower c (to_lower c) (n + 1) name (to_lower-is_hyphen c),
      )
      refl

valid_hostname-lower : (name : List ℕ) → valid_hostname (map to_lower name) ≡ valid_hostname name
unfolding valid_hostname
valid_hostname-lower name =
    rw
      (
        length-map name,
        get_or-map name 0,
        get_or-map name (length name - 1),
        hostname_loop-lower 0 0 0 name refl,
      )
      refl

-- The name that `normalize_hostname` returns is one that it returns unchanged.
pub normalize_hostname-idempotent :
    (name : List ℕ) {out : List ℕ}
    → normalize_hostname name 256 ≡ some out
    → normalize_hostname out 256 ≡ some out
normalize_hostname-idempotent name {out} h = by (valid_hostname name) refl
  where
    by : (valid : Bool) → valid_hostname name ≡ valid → normalize_hostname out 256 ≡ some out
    by true e =
        let named : some (map to_lower name) ≡ some out =
          sym (rw e at (normalize_hostname-valid_hostname name)) ∙ h in
        let same : map to_lower name ≡ out = cc in
        rw (← same) (
          normalize_hostname-valid_hostname (map to_lower name)
          ∙ rw (valid_hostname-lower name, e, lower_twice name) refl)
    by false e =
        let clash : none ≡ some out = sym (rw e at (normalize_hostname-valid_hostname name)) ∙ h in
        cc
