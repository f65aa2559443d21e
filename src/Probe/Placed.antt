-- ===== src/Probe/Placed.antt =====
-- The invariant of an open-addressed table: every entry can be reached from its home, the position
-- where its walk begins, without crossing an empty slot. What lookups and insertions owe to it.
use quic_sni_router.Base.{
  ℕ, zero, suc, ◌<◌, ◌≡◌, refl, sym, ap, ◌∙◌, ◌≢◌, inl, inr, Bool, true, false, Option, none, some,
  List, arith, ltb, ◌==◌, ltb→lt, ==_iff, Bool-cases, length, set, replicate, length-set,
  get_or-set_self, get_or-set_ne,
}
use quic_sni_router.Probe.{Found, hit, empty, exhausted, slot_at, probe}
use quic_sni_router.Probe.Walk.{walk, slot_at-lt, Passed, Holds, Means, probe-Means}

module _ {ℓ} {E : Type ℓ} (home : E → ℕ) where
  -- The slots between the home of an entry and the position where it stands are occupied.
  pub record Reachable (slots : List (Option E)) (e : E) (pos : ℕ) : Type ℓ where
    pub steps : ℕ
    pub few : steps < length slots
    pub arrives : walk (length slots) (home e) steps ≡ pos
    pub occupied : (j : ℕ) → j < steps → slot_at slots (walk (length slots) (home e) j) ≢ none

  abbrev pub IsPlaced : List (Option E) → Type ℓ
  IsPlaced slots = (pos : ℕ) (e : E) → slot_at slots pos ≡ some e → Reachable slots e pos

  -- An entry that a walk from its home did not go past stands where the walk cannot have ended.
  module _ (accepts : E → Bool) (slots : List (Option E)) (e : E) (at : ℕ) where
    not-Passed : slot_at slots at ≡ some e → accepts e ≡ true → ¬ Passed accepts slots at
    not-Passed there good (e', there', bad) =
        let same : e ≡ e' = (let both : some e ≡ some e' = sym there ∙ there' in cc) in
        let clash : true ≡ false = sym good ∙ ap accepts same ∙ bad in cc

    -- If every entry of the table is reachable, and some entry whose home is a position of the table
    -- passes the test, then the walk from that home ends at a slot whose entry passes the test.
    pub probe_finds :
        IsPlaced slots
        → slot_at slots at ≡ some e
        → accepts e ≡ true
        → home e < length slots
        → (p : ℕ) × (probe accepts slots (length slots) (home e) ≡ hit p) × Holds accepts slots p
    probe_finds placed there good inside =
        go (probe accepts slots (length slots) (home e)) refl
          (probe-Means accepts slots (length slots) (home e) inside)
      where
        reached : Reachable slots e at
        reached = placed at e there

        at_steps : Passed accepts slots (walk (length slots) (home e) reached.steps) → ⊥
        at_steps p = not-Passed there good (rw reached.arrives at p)

        go :
            (found : Found)
            → probe accepts slots (length slots) (home e) ≡ found
            → Means accepts slots (length slots) (home e) found
            → (p : ℕ) × (probe accepts slots (length slots) (home e) ≡ hit p)
              × Holds accepts slots p
        go (hit p) r (j, hj, ep, held, before) = (p, r, held)
        go (empty p) r (j, hj, ep, vacant, before) =
            absurd (elim (Bool-cases (ltb reached.steps j)) [
              | inl past ↦ at_steps (before reached.steps (ltb→lt _ _ past))
              | inr upto ↦ elim (Bool-cases (ltb j reached.steps)) [
                | inl short ↦ reached.occupied j (ltb→lt _ _ short) (rw (← ep) vacant)
                | inr from ↦
                    let same : j ≡ reached.steps = ground arith in
                    let clash : none ≡ some e = sym vacant ∙ rw (ep, same, reached.arrives) there in
                    cc
              ]
            ])
        go exhausted r m = absurd (at_steps (m reached.steps reached.few))

  module _ (slots : List (Option E)) (e : E) (p : ℕ) (inside : p < length slots) where
    occupied_set : (q : ℕ) → slot_at slots q ≢ none → slot_at (set slots p (some e)) q ≢ none
    occupied_set q h z = elim (Bool-cases (p == q)) [
      | inl same ↦
          let same' : p ≡ q = ground arith in
          let here = get_or-set_self slots p (some e) none inside in
          let clash : some e ≡ none = sym here ∙ (rw (← same') at z) in cc
      | inr other ↦ h (sym (get_or-set_ne slots p q (some e) none (ground arith)) ∙ z)
    ]

    Reachable-set :
        (e' : E) (pos : ℕ) → Reachable slots e' pos → Reachable (set slots p (some e)) e' pos
    Reachable-set e' pos r = record {
      steps = r.steps;
      few = rw length-set r.few;
      arrives = rw length-set r.arrives;
      occupied = λ j h. rw length-set (occupied_set _ (r.occupied j h));
    }

  -- If every entry is reachable, and the walk from the home of a new entry, a position of the table,
  -- ends at an empty slot, then every entry is reachable once the new entry stands in that slot.
  pub set-IsPlaced :
      (accepts : E → Bool) (slots : List (Option E)) (e : E) (p : ℕ)
      → IsPlaced slots
      → home e < length slots
      → probe accepts slots (length slots) (home e) ≡ empty p
      → IsPlaced (set slots p (some e))
  set-IsPlaced accepts slots e p placed inside ends pos e' there = elim (Bool-cases (p == pos)) [
    | inl same ↦
        let same' : p ≡ pos = ground arith in
        let here : slot_at (set slots p (some e)) pos ≡ some e =
          rw (← same') (get_or-set_self slots p (some e) none p_in) in
        let is_e : e ≡ e' = (let both : some e ≡ some e' = sym here ∙ there in cc) in
        rw (← is_e, ← same') new
    | inr other ↦
        Reachable-set slots e p p_in e' pos
          (placed pos e' (sym (get_or-set_ne slots p pos (some e) none (ground arith)) ∙ there))
  ]
    where
      m : Means accepts slots (length slots) (home e) (empty p)
      m = rw ends at (probe-Means accepts slots (length slots) (home e) inside)

      p_in : p < length slots
      p_in = rw m.2 (omega arith)

      passed_occupied : (q : ℕ) → Passed accepts slots q → slot_at slots q ≢ none
      passed_occupied q (x, full_, _) z = let clash : some x ≡ none = sym full_ ∙ z in cc

      new : Reachable (set slots p (some e)) e p
      new = record {
        steps = m.0;
        few = rw length-set m.1;
        arrives = rw length-set (sym m.2);
        occupied =
            λ j h. rw length-set (occupied_set slots e p p_in _ (passed_occupied _ (m.4 j h)));
      }

  -- An entry may be replaced by one with the same home.
  pub replace-IsPlaced :
      (slots : List (Option E)) (p : ℕ) (old new : E)
      → IsPlaced slots
      → slot_at slots p ≡ some old
      → home new ≡ home old
      → IsPlaced (set slots p (some new))
  replace-IsPlaced slots p old new placed held same pos e' there = elim (Bool-cases (p == pos)) [
    | inl here ↦
        let here' : p ≡ pos = (==_iff p pos).0 here in
        let now : slot_at (set slots p (some new)) p ≡ some new =
          get_or-set_self slots p (some new) none inside in
        let both : some new ≡ some e' = sym now ∙ (rw (← here') at there) in
        let is_new : new ≡ e' = cc in
        rw (← is_new, ← here') (Reachable-set slots new p inside new p moved)
    | inr other ↦
        Reachable-set slots new p inside e' pos
          (placed pos e' (sym (get_or-set_ne slots p pos (some new) none (ground arith)) ∙ there))
  ]
    where
      inside : p < length slots
      inside = slot_at-lt slots p held

      r : Reachable slots old p
      r = placed p old held

      moved : Reachable slots new p
      moved = record {
        steps = r.steps;
        few = r.few;
        arrives = rw same r.arrives;
        occupied = λ j h. rw same (r.occupied j h);
      }

  pub replicate-IsPlaced : (n : ℕ) → IsPlaced (replicate n none)
  replicate-IsPlaced n pos e there =
      let clash : none ≡ some e = sym (all_none n pos) ∙ there in absurd (cc)
    where
      all_none : (k q : ℕ) → slot_at {E = E} (replicate k none) q ≡ none
      all_none zero q = refl
      all_none (suc k) zero = refl
      all_none (suc k) (suc q) = all_none k q
