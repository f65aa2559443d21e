-- ===== src/Probe/Update.antt =====
-- What a walk finds once the slot where it ended has been written.
use quic_sni_router.Base.{
  ℕ, ◌<◌, ◌≡◌, sym, ap, ◌∙◌, inl, inr, Bool, true, false, Option, none, some, List, arith, ltb,
  ltb→lt, Bool-cases, length, set, length-set, get_or-set_self, get_or-set_ne,
}
use quic_sni_router.Probe.{Found, hit, empty, exhausted, slot_at, probe}
use quic_sni_router.Probe.Walk.{walk, Passed, Means, probe-Means}

module _ {ℓ} {E : Type ℓ} (accepts : E → Bool) (slots : List (Option E)) where
  accepted-Passed :
      (p : ℕ) {e : E} → slot_at slots p ≡ some e → accepts e ≡ true → ¬ Passed accepts slots p
  accepted-Passed p {e} there good (e', there', bad) =
      let both : some e ≡ some e' = sym there ∙ there' in
      let same : e ≡ e' = cc in let clash : true ≡ false = sym good ∙ ap accepts same ∙ bad in cc

  vacant-Passed : (p : ℕ) → slot_at slots p ≡ none → ¬ Passed accepts slots p
  vacant-Passed p vacant (e, there, _) = let clash : none ≡ some e = sym vacant ∙ there in cc

  -- The walk ends at the first slot whose entry passes the test.
  probe_first :
      (n pos j : ℕ) {e : E}
      → pos < length slots
      → j < n
      → slot_at slots (walk (length slots) pos j) ≡ some e
      → accepts e ≡ true
      → ((k : ℕ) → k < j → Passed accepts slots (walk (length slots) pos k))
      → probe accepts slots n pos ≡ hit (walk (length slots) pos j)
  probe_first n pos j {e} inside few there good before =
      go (probe accepts slots n pos) (probe-Means accepts slots n pos inside)
    where
      here : ¬ Passed accepts slots (walk (length slots) pos j)
      here = accepted-Passed (walk (length slots) pos j) there good

      first :
          (i : ℕ)
          → ((k : ℕ) → k < i → Passed accepts slots (walk (length slots) pos k))
          → ¬ Passed accepts slots (walk (length slots) pos i)
          → i ≡ j
      first i before' here' = elim (Bool-cases (ltb i j)) [
        | inl low ↦ absurd (here' (before i (ltb→lt i j low)))
        | inr from ↦ elim (Bool-cases (ltb j i)) [
          | inl high ↦ absurd (here (before' j (ltb→lt j i high)))
          | inr upto ↦ ground arith
        ]
      ]

      go :
          (found : Found)
          → Means accepts slots n pos found
          → found ≡ hit (walk (length slots) pos j)
      go (hit p) (i, hi, at, (x, there', good'), before') =
          let same = first i before' (rw (← at) (accepted-Passed p there' good')) in
          ap hit (at ∙ ap (walk (length slots) pos) same)
      go (empty p) (i, hi, at, vacant, before') =
          let same = first i before' (rw (← at) (vacant-Passed p vacant)) in
          let clash : none ≡ some e =
            sym vacant ∙ ap (slot_at slots) (at ∙ ap (walk (length slots) pos) same) ∙ there in
          cc
      go exhausted before' = absurd (here (before' j few))

module _ {ℓ} {E : Type ℓ} (accepts : E → Bool) (slots : List (Option E)) where
  -- The slot where the walk ended now holds an entry that passes the test.
  probe_written :
      (n pos j p : ℕ) (e : E)
      → pos < length slots
      → j < n
      → p ≡ walk (length slots) pos j
      → ¬ Passed accepts slots p
      → accepts e ≡ true
      → ((k : ℕ) → k < j → Passed accepts slots (walk (length slots) pos k))
      → probe accepts (set slots p (some e)) n pos ≡ hit p
  probe_written n pos j p e inside few at stops good before =
      probe_first accepts (set slots p (some e)) n pos j (rw size inside) few
        (ap (slot_at (set slots p (some e))) at' ∙ get_or-set_self slots p (some e) none p_in) good
        (λ k h. rw size (kept _ (before k h)))
      ∙ ap hit at'
    where
      size : length (set slots p (some e)) ≡ length slots
      size = length-set slots p (some e)

      at' : walk (length (set slots p (some e))) pos j ≡ p
      at' = rw size (sym at)

      p_in : p < length slots
      p_in = rw at (omega arith)

      kept : (q : ℕ) → Passed accepts slots q → Passed accepts (set slots p (some e)) q
      kept q (e', there, bad) = (
        e',
        get_or-set_ne slots p q (some e) none (λ same. stops (rw same (e', there, bad))) ∙ there,
        bad,
      )

  -- An insertion into the empty slot that ended the walk is found where it was made.
  pub probe-set_empty :
      (n pos p : ℕ) (e : E)
      → pos < length slots
      → probe accepts slots n pos ≡ empty p
      → accepts e ≡ true
      → probe accepts (set slots p (some e)) n pos ≡ hit p
  probe-set_empty n pos p e inside ends good =
      let (j, few, at, vacant, before) = ended in
      probe_written n pos j p e inside few at (vacant-Passed accepts slots p vacant) good before
    where
      ended : Means accepts slots n pos (empty p)
      ended = rw ends at (probe-Means accepts slots n pos inside)

  -- An update of the entry that the walk found is found at the same place.
  pub probe-set_hit :
      (n pos p : ℕ) (e : E)
      → pos < length slots
      → probe accepts slots n pos ≡ hit p
      → accepts e ≡ true
      → probe accepts (set slots p (some e)) n pos ≡ hit p
  probe-set_hit n pos p e inside ends good =
      let (j, few, at, (x, there, passes), before) = ended in
      probe_written n pos j p e inside few at (accepted-Passed accepts slots p there passes) good
        before
    where
      ended : Means accepts slots n pos (hit p)
      ended = rw ends at (probe-Means accepts slots n pos inside)

  -- What the walk found passes the test.
  pub probe_hit-accepts :
      (n pos p : ℕ)
      → pos < length slots
      → probe accepts slots n pos ≡ hit p
      → (e : E) × (slot_at slots p ≡ some e) × (accepts e ≡ true)
  probe_hit-accepts n pos p inside ends = let (j, few, at, found, before) = ended in found
    where
      ended : Means accepts slots n pos (hit p)
      ended = rw ends at (probe-Means accepts slots n pos inside)

  -- An empty slot that ended a walk is a slot of the table.
  pub probe_empty-lt :
      (n pos p : ℕ) → pos < length slots → probe accepts slots n pos ≡ empty p → p < length slots
  probe_empty-lt n pos p inside ends =
      let (j, few, at, vacant, before) = ended in rw at (omega arith)
    where
      ended : Means accepts slots n pos (empty p)
      ended = rw ends at (probe-Means accepts slots n pos inside)
