-- ===== src/Dataplane/Lookup/Safety.antt =====
-- What the lookups of src/udp.c by connection id find.
use quic_sni_router.Base.{
  ℕ, zero, suc, ◌+◌, ◌-◌, ◌^◌, ◌≤◌, ◌<◌, min, bit_and, ◌≡◌, refl, sym, ◌∙◌, ◌⊎◌, inl, inr, true,
  false, not, ◌&&◌, ◌||◌, Option, none, some, List, arith, ok, ltb, ◌==◌, le→ltb, ltb→le, ==_iff,
  Bool-cases, Option-cases, length, take, drop, copy, copy-in,
}
use quic_sni_router.Quic.LongHeader.{max_quic_cid_len}
use quic_sni_router.Session.Key.{min_learned_cid_len, session_single_cid_key}
use quic_sni_router.Session.Table.{SessionTable, session_table_get}
use quic_sni_router.Dataplane.Lookup.{long_bit, fixed_bit, short_cid_loop, lookup_short_header_cid}

-- The length of an id that some session was stored under, or any length while none is known.
abbrev pub IsLearned : SessionTable → ℕ → Type 0
IsLearned t n = (not (t.cid_len_mask == 0) && bit_and t.cid_len_mask (2 ^ n) == 0) ≡ false

module _ (hash : List ℕ → ℕ) (t : SessionTable) (packet : List ℕ) where
  -- The session under the id of `n` bytes behind the header byte.
  abbrev pub under_cid : ℕ → Option ℕ
  under_cid n = session_table_get hash t (session_single_cid_key (take n (drop 1 packet)) n)

  -- What the loop over the lengths below `bound` returns: the session under the longest learned id
  -- that has one, or nothing if no learned id has one.
  abbrev pub IsLongest : ℕ → Option ℕ → Type 0
  IsLongest bound (some i) =
      (n : ℕ) × (min_learned_cid_len ≤ n)
      × (n < bound)
      × IsLearned t n
      × (under_cid n ≡ some i)
      × ((m : ℕ) → n < m → m < bound → IsLearned t m → under_cid m ≡ none)
  IsLongest bound none =
      (m : ℕ) → min_learned_cid_len ≤ m → m < bound → IsLearned t m → under_cid m ≡ none

  extend-IsLongest :
      (n : ℕ) (found : Option ℕ)
      → IsLongest (min_learned_cid_len + n) found
      → (IsLearned t (min_learned_cid_len + n) → under_cid (min_learned_cid_len + n) ≡ none)
      → IsLongest (min_learned_cid_len + suc n) found
  extend-IsLongest n none shorter here = λ m from below learned.
      elim (Bool-cases (m == min_learned_cid_len + n)) [
        | inl last ↦
            let e : m ≡ min_learned_cid_len + n = (==_iff m (min_learned_cid_len + n)).0 last in
            rw e (here (rw e at learned))
        | inr earlier ↦ shorter m from (ground arith) learned
      ]
  extend-IsLongest n (some i) (l, from, below, learned, there, longest) here = (
    l,
    from,
    omega arith,
    learned,
    there,
    λ m above under known. elim (Bool-cases (m == min_learned_cid_len + n)) [
      | inl last ↦
          let e : m ≡ min_learned_cid_len + n = (==_iff m (min_learned_cid_len + n)).0 last in
          rw e (here (rw e at known))
      | inr earlier ↦ longest m above (ground arith) known
    ],
  )

  short_cid_loop_lem :
      (n : ℕ)
      → n + min_learned_cid_len ≤ length packet
      → (found : Option ℕ) × (short_cid_loop hash n t packet ≡ ok found)
        × IsLongest (min_learned_cid_len + n) found
  unfolding short_cid_loop
  short_cid_loop_lem zero h = (none, refl, λ m a b. absurd (omega arith))
  short_cid_loop_lem (suc n) h =
      let (found, returned, shorter) = short_cid_loop_lem n (omega arith) in
      let cid_len = min_learned_cid_len + n in
      elim (Bool-cases (not (t.cid_len_mask == 0) && bit_and t.cid_len_mask (2 ^ cid_len) == 0)) [
        | inl unknown ↦ (
          found,
          rw (unknown, returned) refl,
          extend-IsLongest n found shorter
              (λ learned. let clash : true ≡ false = sym unknown ∙ learned in absurd (cc)),
        )
        | inr learned ↦
            let copied : copy packet 1 cid_len ≡ ok (take cid_len (drop 1 packet)) =
              copy-in packet 1 cid_len (omega arith) in
            elim (Option-cases (under_cid cid_len)) [
              | inl absent ↦ (
                found,
                rw (learned, copied, absent, returned) refl,
                extend-IsLongest n found shorter (λ known. absent),
              )
              | inr (i, there) ↦ (
                some i,
                rw (learned, copied, there) refl,
                (
                  cid_len,
                  omega arith,
                  omega arith,
                  learned,
                  there,
                  λ m above below. absurd (omega arith),
                ),
              )
            ]
      ]

  -- The bytes of a short header that may belong to an id: at most 20, behind the header byte.
  abbrev pub short_bound : ℕ
  short_bound = min (length packet - 1) max_quic_cid_len + 1

  -- A short header with room for an id: the form bit is 0, and the fixed bit is 1.
  abbrev pub IsShort : Type 0
  IsShort =
      (min_learned_cid_len + 1 ≤ length packet)
      × (long_bit packet ≡ false)
      × (fixed_bit packet ≡ true)

  -- The lookup of a short header ends and reads nothing outside the packet. For a short header with
  -- room for an id of 8 bytes it returns the session under the longest learned id of 8 to 20 bytes that
  -- the packet can hold and that has a session, or nothing if no such id has one. For any other packet
  -- it returns nothing.
  pub lookup_short_header_cid_lem :
      (found : Option ℕ) × (lookup_short_header_cid hash t packet ≡ ok found)
      × ((IsShort × IsLongest short_bound found) ⊎ ((¬ IsShort) × (found ≡ none)))
  unfolding lookup_short_header_cid
  lookup_short_header_cid_lem =
      elim (Bool-cases (
        ltb (length packet) (1 + min_learned_cid_len)
        || (long_bit packet || not (fixed_bit packet)))) [
          | inl other ↦
              (none, rw other refl, inr (λ (a, b, c). clash (length packet) a b c other, refl))
          | inr short ↦
              let fits : ltb (length packet) (1 + min_learned_cid_len) ≡ false = ground arith in
              let fits' = ltb→le _ _ fits in
              let (found, returned, longest) =
                short_cid_loop_lem (short_bound - min_learned_cid_len) (omega arith) in
              let e : min_learned_cid_len + (short_bound - min_learned_cid_len) ≡ short_bound =
                omega arith in
              (
                found,
                rw (short, returned) refl,
                inl ((omega arith, ground arith, ground arith), rw e at longest),
              )
        ]
    where
      clash :
          (size : ℕ)
          → min_learned_cid_len + 1 ≤ size
          → long_bit packet ≡ false
          → fixed_bit packet ≡ true
          → (ltb size (1 + min_learned_cid_len) || (long_bit packet || not (fixed_bit packet)))
            ≡ true
          → ⊥
      clash size a b c other =
          let room : ltb size (1 + min_learned_cid_len) ≡ false = le→ltb _ _ (omega arith) in
          let no : false ≡ true = rw (room, b, c) at other in cc
