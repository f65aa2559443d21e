-- ===== src/Base/Bytes.antt =====
-- Byte buffers: a `const uint8_t *` with its length is the list of its bytes.
use Prim.Native.Nat.{ℕ, ◌+◌, ◌*◌, ◌≤◌, ◌<◌}
use mathlib.Core.Path.{◌≡◌, refl}
use mathlib.Core.Logic.{inl, inr}
use mathlib.Core.Bool.{Bool, true, false, ◌&&◌}
use mathlib.Core.Option.{Option, none, some}
use mathlib.Core.List.{List, [], ◌∷◌}
use native.Mathlib.Omega.{arith}
use quic_sni_router.Base.Tests.{ltb, leb, ◌==◌, if◌then◌else◌, Bool-cases, ltb→lt}
use quic_sni_router.Base.Lists.{
  length, get_elem?, take, drop, All, get_elem?-lt, All-get_elem?, All-drop, All-take, length-drop,
  length-take,
}
use quic_sni_router.Base.Outcome.{Result, ok, fault, Safe, ◌>>=◌}

abbrev pub IsByte : ℕ → Type 0
IsByte b = b < 256

-- `data[i]`; outside the buffer it is a fault.
abbrev pub option_read : {A : Type 0} → Option A → Result A
option_read none = fault
option_read (some a) = ok a

unfoldable pub read : List ℕ → ℕ → Result ℕ
read bytes i = option_read (get_elem? bytes i)

-- `data + offset` with the length `len - offset`: the bytes that are left. Past the end it faults.
unfoldable pub advance : List ℕ → ℕ → Result (List ℕ)
advance bytes offset = if leb offset (length bytes) then ok (drop offset bytes) else fault

-- `memcpy(out, data + offset, n)`
unfoldable pub copy : List ℕ → ℕ → ℕ → Result (List ℕ)
copy bytes offset n =
    if leb (offset + n) (length bytes) then ok (take n (drop offset bytes)) else fault

-- `memcmp(a, b, n) == 0` for whole buffers of one length
abbrev pub same_bytes : List ℕ → List ℕ → Bool
same_bytes [] [] = true
same_bytes [] (y ∷ ys) = false
same_bytes (x ∷ xs) [] = false
same_bytes (x ∷ xs) (y ∷ ys) = x == y && same_bytes xs ys

pub same_bytes_refl : (xs : List ℕ) → same_bytes xs xs ≡ true
same_bytes_refl [] = refl
same_bytes_refl (x ∷ xs) = ground (arith, same_bytes_refl xs)

pub same_bytes→eq : (xs ys : List ℕ) → same_bytes xs ys ≡ true → xs ≡ ys
same_bytes→eq [] [] h = refl
same_bytes→eq [] (y ∷ ys) h = absurd (cc)
same_bytes→eq (x ∷ xs) [] h = absurd (cc)
same_bytes→eq (x ∷ xs) (y ∷ ys) h = ground (arith, same_bytes→eq xs ys)

pub read-in :
    (bytes : List ℕ) (i : ℕ)
    → All IsByte bytes
    → i < length bytes
    → Safe (λ b. IsByte b × (get_elem? bytes i ≡ some b)) (read bytes i)
unfolding read
read-in bytes i all h =
    let (b, e) = get_elem?-lt bytes i h in rw e (All-get_elem? IsByte bytes i all e, refl)

pub read-eq : (bytes : List ℕ) (i : ℕ) {b : ℕ} → get_elem? bytes i ≡ some b → read bytes i ≡ ok b
unfolding read
read-eq bytes i e = rw e

pub advance-in :
    (bytes : List ℕ) (offset : ℕ)
    → offset ≤ length bytes
    → advance bytes offset ≡ ok (drop offset bytes)
unfolding advance
advance-in bytes offset h = ground arith

pub copy-in :
    (bytes : List ℕ) (offset n : ℕ)
    → offset + n ≤ length bytes
    → copy bytes offset n ≡ ok (take n (drop offset bytes))
unfolding copy
copy-in bytes offset n h = ground arith

-- A number from its bytes, the highest first, behind those already read.
abbrev pub big_endian : ℕ → List ℕ → ℕ
big_endian acc [] = acc
big_endian acc (c ∷ cs) = big_endian (acc * 256 + c) cs

-- The rules by which a safe parser reads.
module _ {B : Type 0} (Q : B → Type 0) (bytes : List ℕ) where
  pub Safe-read :
      (i : ℕ) (f : ℕ → Result B)
      → All IsByte bytes
      → i < length bytes
      → ((b : ℕ) → IsByte b → get_elem? bytes i ≡ some b → Safe Q (f b))
      → Safe Q (read bytes i >>= f)
  unfolding read
  Safe-read i f all h k =
      let (b, e) = get_elem?-lt bytes i h in rw e (k b (All-get_elem? IsByte bytes i all e) e)

  pub Safe-advance :
      (offset : ℕ) (f : List ℕ → Result B)
      → All IsByte bytes
      → offset ≤ length bytes
      → ((rest : List ℕ)
          → All IsByte rest
          → length rest + offset ≡ length bytes
          → rest ≡ drop offset bytes
          → Safe Q (f rest))
      → Safe Q (advance bytes offset >>= f)
  Safe-advance offset f all h k = rw (advance-in bytes offset h) (
      k (drop offset bytes) (All-drop IsByte offset bytes all)
        (omega (arith, length-drop offset bytes)) refl)

  pub Safe-copy :
      (offset n : ℕ) (f : List ℕ → Result B)
      → All IsByte bytes
      → offset + n ≤ length bytes
      → ((part : List ℕ)
          → All IsByte part
          → length part ≡ n
          → part ≡ take n (drop offset bytes)
          → Safe Q (f part))
      → Safe Q (copy bytes offset n >>= f)
  Safe-copy offset n f all h k = rw (copy-in bytes offset n h) (
      k (take n (drop offset bytes))
        (All-take IsByte n (drop offset bytes) (All-drop IsByte offset bytes all))
        (omega (arith, length-take n (drop offset bytes), length-drop offset bytes)) refl)

pub Safe-if :
    {B : Type 0} (Q : B → Type 0) (b : Bool) (x y : Result B)
    → (b ≡ true → Safe Q x)
    → (b ≡ false → Safe Q y)
    → Safe Q (if b then x else y)
Safe-if Q true x y h k = h refl
Safe-if Q false x y h k = k refl

-- A test for lists of bytes, which decides `All IsByte` by running.
abbrev pub are_bytes : List ℕ → Bool
are_bytes [] = true
are_bytes (x ∷ xs) = ltb x 256 && are_bytes xs

pub are_bytes-IsByte : (xs : List ℕ) → are_bytes xs ≡ true → All IsByte xs
are_bytes-IsByte [] h = tt
are_bytes-IsByte (x ∷ xs) h = elim (Bool-cases (ltb x 256)) [
  | inl small ↦ (ltb→lt x 256 small, are_bytes-IsByte xs (rw small at h))
  | inr large ↦ (let h' = rw large at h in absurd (cc))
]
