-- ===== src/Session/Key/Equality.antt =====
-- Equal keys are hashed alike, and every key equals itself.
use quic_sni_router.Base.{
  ℕ, ◌%◌, ◌≡◌, refl, ap, ap₂, Bool, true, false, List, [], ◌∷◌, ◌++◌, arith, if◌then◌else◌, ==_refl,
  take, same_bytes_refl, same_bytes→eq,
}
use quic_sni_router.Session.Key.{SessionKey, serialize, same_bool, key_equals}

same_bool→eq : (a b : Bool) → same_bool a b ≡ true → a ≡ b
same_bool→eq true true h = refl
same_bool→eq true false h = cc
same_bool→eq false true h = cc
same_bool→eq false false h = refl

same_bool_refl : (a : Bool) → same_bool a a ≡ true
same_bool_refl true = refl
same_bool_refl false = refl

pub key_equals_refl : (key : SessionKey) → key_equals key key ≡ true
unfolding key_equals
key_equals_refl key =
    rw
      (
        same_bool_refl key.has_tuple,
        same_bool_refl key.has_cids,
        ==_refl key.client_addr_len,
        ==_refl key.dcid_len,
        ==_refl key.scid_len,
        same_bytes_refl (take key.client_addr_len key.client_addr),
        same_bytes_refl (take key.dcid_len key.dcid),
        same_bytes_refl (take key.scid_len key.scid),
      )
      (ground arith)

tuple_part :
    (has : Bool) (len : ℕ) (addr addr' : List ℕ)
    → (has ≡ true → take len addr ≡ take len addr')
    → (if has then (len % 256) ∷ take len addr else [])
      ≡ (if has then (len % 256) ∷ take len addr' else [])
tuple_part false len addr addr' same = refl
tuple_part true len addr addr' same = ap (λ t. (len % 256) ∷ t) (same refl)

cids_part :
    (has : Bool) (len len2 : ℕ) (d d' s s' : List ℕ)
    → (has ≡ true → (take len d ≡ take len d') × (take len2 s ≡ take len2 s'))
    → (if has then (len % 256) ∷ (take len d ++ ((len2 % 256) ∷ take len2 s)) else [])
      ≡ (if has then (len % 256) ∷ (take len d' ++ ((len2 % 256) ∷ take len2 s')) else [])
cids_part false len len2 d d' s s' same = refl
cids_part true len len2 d d' s s' same =
    let (e, e2) = same refl in ap₂ (λ t u. (len % 256) ∷ (t ++ ((len2 % 256) ∷ u))) e e2

-- What the test compares.
abbrev SameKey : SessionKey → SessionKey → Type 0
SameKey a b =
    ((a.has_tuple ≡ b.has_tuple) × (a.has_cids ≡ b.has_cids))
    × ((a.client_addr_len ≡ b.client_addr_len)
        × (a.dcid_len ≡ b.dcid_len)
        × (a.scid_len ≡ b.scid_len))
    × (a.has_tuple ≡ true
        → take a.client_addr_len a.client_addr ≡ take a.client_addr_len b.client_addr)
    × (a.has_cids ≡ true
        → (take a.dcid_len a.dcid ≡ take a.dcid_len b.dcid)
          × (take a.scid_len a.scid ≡ take a.scid_len b.scid))

key_equals-SameKey : (a b : SessionKey) → key_equals a b ≡ true → SameKey a b
unfolding key_equals
key_equals-SameKey a b h = (
  (
    same_bool→eq a.has_tuple b.has_tuple (ground arith),
    same_bool→eq a.has_cids b.has_cids (ground arith),
  ),
  (ground arith, ground arith, ground arith),
  (λ t.
      same_bytes→eq (take a.client_addr_len a.client_addr) (take a.client_addr_len b.client_addr)
        (ground arith)),
  (λ c. (
    same_bytes→eq (take a.dcid_len a.dcid) (take a.dcid_len b.dcid) (ground arith),
    same_bytes→eq (take a.scid_len a.scid) (take a.scid_len b.scid) (ground arith),
  )),
)

-- Keys that the test takes for equal are hashed over the same bytes.
pub key_equals-serialize : (a b : SessionKey) → key_equals a b ≡ true → serialize a ≡ serialize b
unfolding serialize
key_equals-serialize a b h =
    let ((tuple, cids), (len, dlen, slen), addr, ids) = key_equals-SameKey a b h in
    rw
      (
        ← tuple,
        ← cids,
        ← len,
        ← dlen,
        ← slen,
        tuple_part a.has_tuple a.client_addr_len a.client_addr b.client_addr addr,
        cids_part a.has_cids a.dcid_len a.scid_len a.dcid b.dcid a.scid b.scid ids,
      )
      refl
