-- ===== src/Probe/Walk.antt =====
-- What the end of a walk says of the slots on its way.
use quic_sni_router.Base.{
  ℕ, zero, suc, ◌+◌, ◌%◌, ◌<◌, ◌≡◌, sym, ap, ◌∙◌, inl, inr, Bool, true, false, Option, none, some,
  List, [], ◌∷◌, arith, Bool-cases, Option-cases, length,
}
use quic_sni_router.Probe.{Found, hit, empty, exhausted, slot_at, probe}
use mathlib.Core.Path.{subst}
use native.Mathlib.Nat.{mod-add-mod, mod-eq_of_lt}

-- The position `j` steps behind `pos`, going round at `size`.
abbrev pub walk : ℕ → ℕ → ℕ → ℕ
walk size pos j = (pos + j) % size

pub walk_next : (size pos j : ℕ) → walk size ((pos + 1) % size) j ≡ walk size pos (suc j)
walk_next size pos j = mod-add-mod (pos + 1) size j ∙ ap (λ t. t % size) (omega arith)

pub walk-zero : (size pos : ℕ) → pos < size → walk size pos 0 ≡ pos
walk-zero size pos h = let e : pos + 0 ≡ pos = omega arith in rw e (mod-eq_of_lt h)

pub slot_at-lt {ℓ} :
    {E : Type ℓ} (slots : List (Option E)) (p : ℕ) {e : E}
    → slot_at slots p ≡ some e
    → p < length slots
slot_at-lt [] p h = cc
slot_at-lt (x ∷ slots) zero h = omega arith
slot_at-lt (x ∷ slots) (suc p) h = omega (arith, slot_at-lt slots p h)

module _ {ℓ} {E : Type ℓ} (accepts : E → Bool) (slots : List (Option E)) where
  -- A slot that the walk goes past.
  abbrev pub Passed : ℕ → Type ℓ
  Passed pos = (e : E) × (slot_at slots pos ≡ some e) × (accepts e ≡ false)

  -- A slot with an entry that passes the test.
  abbrev pub Holds : ℕ → Type ℓ
  Holds pos = (e : E) × (slot_at slots pos ≡ some e) × (accepts e ≡ true)

  -- What each outcome means of a walk of `n` probes from `pos`.
  abbrev pub Means : ℕ → ℕ → Found → Type ℓ
  Means n pos (hit p) =
      (j : ℕ) × (j < n)
      × (p ≡ walk (length slots) pos j)
      × Holds p
      × ((k : ℕ) → k < j → Passed (walk (length slots) pos k))
  Means n pos (empty p) =
      (j : ℕ) × (j < n)
      × (p ≡ walk (length slots) pos j)
      × (slot_at slots p ≡ none)
      × ((k : ℕ) → k < j → Passed (walk (length slots) pos k))
  Means n pos exhausted = (k : ℕ) → k < n → Passed (walk (length slots) pos k)

  Passed-later :
      (pos j : ℕ)
      → pos < length slots
      → Passed pos
      → ((k : ℕ) → k < j → Passed (walk (length slots) ((pos + 1) % length slots) k))
      → (k : ℕ) → k < suc j
      → Passed (walk (length slots) pos k)
  Passed-later pos j h passed before zero hk = rw (walk-zero (length slots) pos h) passed
  Passed-later pos j h passed before (suc k) hk =
      rw (walk_next (length slots) pos k) at (before k (omega arith))

  Means-later :
      (n pos : ℕ) (found : Found)
      → pos < length slots
      → Passed pos
      → Means n ((pos + 1) % length slots) found
      → Means (suc n) pos found
  Means-later n pos (hit p) h passed (j, hj, e, accepted, before) = (
    suc j,
    omega arith,
    e ∙ walk_next (length slots) pos j,
    accepted,
    Passed-later pos j h passed before,
  )
  Means-later n pos (empty p) h passed (j, hj, e, vacant, before) = (
    suc j,
    omega arith,
    e ∙ walk_next (length slots) pos j,
    vacant,
    Passed-later pos j h passed before,
  )
  Means-later n pos exhausted h passed before = Passed-later pos n h passed before

  -- One step of the walk.
  pub probe_vacant :
      (n pos : ℕ) → slot_at slots pos ≡ none → probe accepts slots (suc n) pos ≡ empty pos
  unfolding probe
  probe_vacant n pos e = rw (e, probe)

  pub probe_hit :
      (n pos : ℕ) {e : E}
      → slot_at slots pos ≡ some e
      → accepts e ≡ true
      → probe accepts slots (suc n) pos ≡ hit pos
  unfolding probe
  probe_hit n pos p q = rw (p, q, probe)

  pub probe_past :
      (n pos : ℕ)
      → Passed pos
      → probe accepts slots (suc n) pos ≡ probe accepts slots n ((pos + 1) % length slots)
  unfolding probe
  probe_past n pos (e, p, q) = rw (p, q, probe)

  Means-eq : (n pos : ℕ) {x y : Found} → x ≡ y → Means n pos y → Means n pos x
  Means-eq n pos p m = subst (Means n pos) (sym p) m

  -- A walk of `n` probes from a position of the table ends as `Means` says.
  pub probe-Means : (n pos : ℕ) → pos < length slots → Means n pos (probe accepts slots n pos)
  probe-Means zero pos h = unfold probe in λ k hk. absurd (omega arith)
  probe-Means (suc n) pos h = elim (Option-cases (slot_at slots pos)) [
    | inl vacant ↦
        Means-eq (suc n) pos (probe_vacant n pos vacant) (
          0,
          omega arith,
          sym (walk-zero (length slots) pos h),
          vacant,
          λ k hk. absurd (omega arith),
        )
    | inr (e, occupied) ↦ elim (Bool-cases (accepts e)) [
      | inl good ↦ Means-eq (suc n) pos (probe_hit n pos occupied good) (
        0,
        omega arith,
        sym (walk-zero (length slots) pos h),
        (e, occupied, good),
        λ k hk. absurd (omega arith),
      )
      | inr bad ↦ Means-eq (suc n) pos (probe_past n pos (e, occupied, bad)) (
          Means-later n pos _ h (e, occupied, bad)
            (probe-Means n ((pos + 1) % length slots) (omega arith)))
    ]
  ]
