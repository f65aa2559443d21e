-- ===== src/Base/Overlay.antt =====
-- Writes of blocks into arrays, `get_or`, and lists that agree element by element.
use Prim.Native.Nat.{ℕ, zero, suc, ◌+◌, ◌≤◌, ◌<◌}
use mathlib.Core.Path.{◌≡◌, refl, ap, sym, ◌∙◌}
use mathlib.Core.Logic.{◌≢◌}
use mathlib.Core.List.{List, [], ◌∷◌}
use mathlib.Core.Option.{Option, none, some}
use native.Mathlib.Omega.{arith}
use quic_sni_router.Base.Lists.{
  length, get_elem?, get_or, set, take, replicate, All, get_elem?-set_self, get_elem?-set_ne,
}

-- `memcpy(dest + at, src, n)` into an array: the elements from `at` on are those of `src`.
module _ {ℓ} {A : Type ℓ} where
  abbrev pub overlay : ℕ → List A → List A → List A
  overlay at src [] = []
  overlay zero [] (d ∷ ds) = d ∷ ds
  overlay zero (s ∷ src) (d ∷ ds) = s ∷ overlay zero src ds
  overlay (suc at) src (d ∷ ds) = d ∷ overlay at src ds

  pub length-overlay : (at : ℕ) (src dest : List A) → length (overlay at src dest) ≡ length dest
  length-overlay at src [] = refl
  length-overlay zero [] (d ∷ ds) = refl
  length-overlay zero (s ∷ src) (d ∷ ds) = ap suc (length-overlay zero src ds)
  length-overlay (suc at) src (d ∷ ds) = ap suc (length-overlay at src ds)

  pub get_elem?-overlay_in :
      (at : ℕ) (src dest : List A) (i : ℕ)
      → i < length src
      → at + i < length dest
      → get_elem? (overlay at src dest) (at + i) ≡ get_elem? src i
  get_elem?-overlay_in at src [] i hs hd = absurd (omega arith)
  get_elem?-overlay_in zero [] (d ∷ ds) i hs hd = absurd (omega arith)
  get_elem?-overlay_in zero (s ∷ src) (d ∷ ds) zero hs hd = refl
  get_elem?-overlay_in zero (s ∷ src) (d ∷ ds) (suc i) hs hd =
      let e : zero + suc i ≡ suc (zero + i) = omega arith in
      rw e (get_elem?-overlay_in zero src ds i (omega arith) (omega arith))
  get_elem?-overlay_in (suc at) src (d ∷ ds) i hs hd =
      let e : suc at + i ≡ suc (at + i) = omega arith in
      rw e (get_elem?-overlay_in at src ds i hs (omega arith))

  pub get_elem?-overlay_below :
      (at : ℕ) (src dest : List A) (i : ℕ)
      → i < at
      → get_elem? (overlay at src dest) i ≡ get_elem? dest i
  get_elem?-overlay_below at src [] i h = refl
  get_elem?-overlay_below zero src (d ∷ ds) i h = absurd (omega arith)
  get_elem?-overlay_below (suc at) src (d ∷ ds) zero h = refl
  get_elem?-overlay_below (suc at) src (d ∷ ds) (suc i) h =
      get_elem?-overlay_below at src ds i (omega arith)

  pub get_elem?-overlay_above :
      (at : ℕ) (src dest : List A) (i : ℕ)
      → at + length src ≤ i
      → get_elem? (overlay at src dest) i ≡ get_elem? dest i
  get_elem?-overlay_above at src [] i h = refl
  get_elem?-overlay_above zero [] (d ∷ ds) i h = refl
  get_elem?-overlay_above zero (s ∷ src) (d ∷ ds) zero h = absurd (omega arith)
  get_elem?-overlay_above zero (s ∷ src) (d ∷ ds) (suc i) h =
      get_elem?-overlay_above zero src ds i (omega arith)
  get_elem?-overlay_above (suc at) src (d ∷ ds) zero h = absurd (omega arith)
  get_elem?-overlay_above (suc at) src (d ∷ ds) (suc i) h =
      get_elem?-overlay_above at src ds i (omega arith)

  pub get_or_congr :
      (xs ys : List A) (i j : ℕ) (d : A)
      → get_elem? xs i ≡ get_elem? ys j
      → get_or xs i d ≡ get_or ys j d
  get_or_congr xs ys i j d h = get_or-option xs i ∙ ap (option_or d) h ∙ sym (get_or-option ys j)
    where
      option_or : A → Option A → A
      option_or a none = a
      option_or a (some b) = b

      get_or-option : (zs : List A) (k : ℕ) → get_or zs k d ≡ option_or d (get_elem? zs k)
      get_or-option [] k = refl
      get_or-option (z ∷ zs) zero = refl
      get_or-option (z ∷ zs) (suc k) = get_or-option zs k

  pub get_or_of_get_elem? :
      (xs : List A) (i : ℕ) (d : A) {x : A} → get_elem? xs i ≡ some x → get_or xs i d ≡ x
  get_or_of_get_elem? [] i d h = absurd (cc)
  get_or_of_get_elem? (y ∷ xs) zero d h = ground arith
  get_or_of_get_elem? (y ∷ xs) (suc i) d h = get_or_of_get_elem? xs i d h

  pub All-overlay {κ} :
      (P : A → Type κ) (at : ℕ) (src dest : List A)
      → All P src
      → All P dest
      → All P (overlay at src dest)
  All-overlay P at src [] hs hd = hd
  All-overlay P zero [] (d ∷ ds) hs hd = hd
  All-overlay P zero (s ∷ src) (d ∷ ds) hs hd = (hs.0, All-overlay P zero src ds hs.1 hd.1)
  All-overlay P (suc at) src (d ∷ ds) hs hd = (hd.0, All-overlay P at src ds hs hd.1)

  pub All-set {κ} :
      (P : A → Type κ) (xs : List A) (i : ℕ) (v : A) → All P xs → P v → All P (set xs i v)
  All-set P [] i v hs hv = hs
  All-set P (x ∷ xs) zero v hs hv = (hv, hs.1)
  All-set P (x ∷ xs) (suc i) v hs hv = (hs.0, All-set P xs i v hs.1 hv)

  pub All-replicate {κ} : (P : A → Type κ) (n : ℕ) (a : A) → P a → All P (replicate n a)
  All-replicate P zero a h = tt
  All-replicate P (suc n) a h = (h, All-replicate P n a h)

  pub All-get_or {κ} :
      (P : A → Type κ) (xs : List A) (i : ℕ) (d : A) → All P xs → P d → P (get_or xs i d)
  All-get_or P [] i d hs hd = hd
  All-get_or P (x ∷ xs) zero d hs hd = hs.0
  All-get_or P (x ∷ xs) (suc i) d hs hd = All-get_or P xs i d hs.1 hd

  pub get_or-set_self :
      (xs : List A) (i : ℕ) (v d : A) → i < length xs → get_or (set xs i v) i d ≡ v
  get_or-set_self xs i v d h = get_or_of_get_elem? (set xs i v) i d (get_elem?-set_self xs i v h)

  pub get_or-set_ne :
      (xs : List A) (i j : ℕ) (v d : A) → i ≢ j → get_or (set xs i v) j d ≡ get_or xs j d
  get_or-set_ne xs i j v d h = get_or_congr (set xs i v) xs j j d (get_elem?-set_ne xs i j v h)

  pub take_ext :
      (n : ℕ) (xs ys : List A) (d : A)
      → n ≤ length xs
      → n ≤ length ys
      → ((i : ℕ) → i < n → get_or xs i d ≡ get_or ys i d)
      → take n xs ≡ take n ys
  take_ext zero xs ys d hx hy h = refl
  take_ext (suc n) [] ys d hx hy h = absurd (omega arith)
  take_ext (suc n) (x ∷ xs) [] d hx hy h = absurd (omega arith)
  take_ext (suc n) (x ∷ xs) (y ∷ ys) d hx hy h =
      let tails : take n xs ≡ take n ys =
        take_ext n xs ys d (omega arith) (omega arith) (λ i hi. h (suc i) (omega arith)) in
      let heads : x ≡ y = h 0 (omega arith) in cc
