-- ===== src/Base/Bits.antt =====
-- Shifts, masks and `|` on bytes and words as arithmetic. A fact about one byte is a table that is
-- checked by evaluation; `|` of a shifted word is taken a binary digit at a time.
use Prim.Native.Nat.{
  ℕ, zero, suc, ◌+◌, ◌*◌, ◌/◌, ◌%◌, ◌^◌, ◌≤◌, ◌<◌, min, max, bit_and, bit_or, digits,
  bit_or-bitwise, bit_and-bitwise,
}
use mathlib.Core.Path.{◌≡◌, refl, ◌∙◌, sym}
use mathlib.Core.Bool.{Bool, true, false}
use mathlib.Core.Logic.{inl, inr}
use native.Mathlib.Omega.{arith}
use native.Mathlib.Nat.{pow-suc}
use quic_sni_router.Base.Tests.{◌==◌, ==_iff, if◌then◌else◌, Bool-cases}

-- Whether two functions agree on the numbers below a bound.
agree_below : (ℕ → ℕ) → (ℕ → ℕ) → ℕ → Bool
agree_below f g zero = true
agree_below f g (suc n) = if f n == g n then agree_below f g n else false

agree_below-eq : (f g : ℕ → ℕ) (n : ℕ) → agree_below f g n ≡ true → (x : ℕ) → x < n → f x ≡ g x
unfolding agree_below
agree_below-eq f g zero same x h = absurd (omega arith)
agree_below-eq f g (suc n) same x h = elim (Bool-cases (f n == g n)) [
  | inr other ↦ (let clash = rw other at same in absurd (cc))
  | inl here ↦ elim (Bool-cases (x == n)) [
    | inl last ↦
        let e : x ≡ n = (==_iff x n).0 last in
        let at_n : f n ≡ g n = (==_iff (f n) (g n)).0 here in rw e at_n
    | inr earlier ↦ agree_below-eq f g n (rw here at same) x (ground arith)
  ]
]

low_six_table : agree_below (λ x. bit_and x 0x3f) (λ x. x % 64) 256 ≡ true
unfolding agree_below
low_six_table = refl

pub low_six : (x : ℕ) → x < 256 → bit_and x 0x3f ≡ x % 64
low_six = agree_below-eq (λ x. bit_and x 0x3f) (λ x. x % 64) 256 low_six_table

bit_seven_table : agree_below (λ x. bit_and x 0x80) (λ x. x / 128 * 128) 256 ≡ true
unfolding agree_below
bit_seven_table = refl

pub bit_seven : (x : ℕ) → x < 256 → bit_and x 0x80 ≡ x / 128 * 128
bit_seven = agree_below-eq (λ x. bit_and x 0x80) (λ x. x / 128 * 128) 256 bit_seven_table

bit_six_table : agree_below (λ x. bit_and x 0x40) (λ x. x / 64 % 2 * 64) 256 ≡ true
unfolding agree_below
bit_six_table = refl

pub bit_six : (x : ℕ) → x < 256 → bit_and x 0x40 ≡ x / 64 % 2 * 64
bit_six = agree_below-eq (λ x. bit_and x 0x40) (λ x. x / 64 % 2 * 64) 256 bit_six_table

type_field_table : agree_below (λ x. bit_and x 0x30) (λ x. x / 16 % 4 * 16) 256 ≡ true
unfolding agree_below
type_field_table = refl

pub type_field : (x : ℕ) → x < 256 → bit_and x 0x30 ≡ x / 16 % 4 * 16
type_field = agree_below-eq (λ x. bit_and x 0x30) (λ x. x / 16 % 4 * 16) 256 type_field_table

-- The digits of `a | b`, and how many of them are taken does not matter once there are enough.
abbrev joined : ℕ → ℕ → ℕ → ℕ
joined fuel a b = digits (λ rest. rest) max fuel a b

joined-zero : (fuel b : ℕ) → joined fuel 0 b ≡ b
joined-zero zero b = refl
joined-zero (suc fuel) b = refl

joined_stable : (a b fuel more : ℕ) → a ≤ fuel → a ≤ more → joined fuel a b ≡ joined more a b
joined_stable zero b fuel more le le' = joined-zero fuel b ∙ sym (joined-zero more b)
joined_stable (suc a) b fuel zero le le' = absurd (omega arith)
joined_stable (suc a) b zero (suc more) le le' = absurd (omega arith)
joined_stable (suc a) b (suc fuel) (suc more) le le' =
    let halves = joined_stable (suc a / 2) (b / 2) fuel more (omega arith) (omega arith) in
    omega (arith, halves)

zero-bit_or : (b : ℕ) → bit_or 0 b ≡ b
zero-bit_or b = bit_or-bitwise 0 b

bit_or_step : (a b : ℕ) → bit_or a b ≡ bit_or (a / 2) (b / 2) * 2 + max (a % 2) (b % 2)
bit_or_step zero b = let whole = zero-bit_or b in let half = zero-bit_or (b / 2) in omega arith
bit_or_step (suc a) b =
    let half = suc a / 2 in
    let stable = joined_stable half (b / 2) a half (omega arith) (omega arith) in
    omega (arith, stable, bit_or-bitwise (suc a) b, bit_or-bitwise (suc a / 2) (b / 2))

zero_bits : (a n : ℕ) → a ≤ n → bit_or a 0 ≡ a
zero_bits zero n h = refl
zero_bits (suc a) zero h = absurd (omega arith)
zero_bits (suc a) (suc n) h =
    let half = zero_bits (suc a / 2) n (omega arith) in omega (arith, half, bit_or_step (suc a) 0)

bit_or-zero : (a : ℕ) → bit_or a 0 ≡ a
bit_or-zero a = zero_bits a a (omega arith)

or_double : (a b : ℕ) → bit_or (2 * a) b ≡ 2 * bit_or a (b / 2) + b % 2
or_double a b =
    let e : 2 * a / 2 ≡ a = omega arith in
    let g : 2 * a % 2 ≡ 0 = omega arith in
    let h : bit_or (2 * a / 2) (b / 2) ≡ bit_or a (b / 2) = rw e in
    omega (arith, bit_or_step (2 * a) b)

-- A word whose low `k` bits are clear, joined by `|` with a value below `2 ^ k`.
bit_or_shift : (k a c : ℕ) → c < 2 ^ k → bit_or (2 ^ k * a) c ≡ 2 ^ k * a + c
bit_or_shift zero a c h =
    let e : c ≡ 0 = omega arith in rw e (omega (arith, bit_or-zero (2 ^ 0 * a)))
bit_or_shift (suc k) a c h =
    let e : 2 ^ suc k * a ≡ 2 * (2 ^ k * a) = rw pow-suc (omega arith) in
    let lt : c / 2 < 2 ^ k =
      (let d : 2 ^ suc k ≡ 2 * 2 ^ k = rw pow-suc (omega arith) in omega arith) in
    rw e (omega (arith, or_double (2 ^ k * a) c, bit_or_shift k a (c / 2) lt))

-- `(x << 8) | c` and its wider forms.
pub bit_or_byte : (x c : ℕ) → c < 256 → bit_or (x * 256) c ≡ x * 256 + c
bit_or_byte x c h = let e : x * 256 ≡ 2 ^ 8 * x = omega arith in rw e (bit_or_shift 8 x c h)

pub bit_or_word : (x c : ℕ) → c < 0x10000 → bit_or (x * 0x10000) c ≡ x * 0x10000 + c
bit_or_word x c h = let e : x * 0x10000 ≡ 2 ^ 16 * x = omega arith in rw e (bit_or_shift 16 x c h)

pub bit_or_three : (x c : ℕ) → c < 0x1000000 → bit_or (x * 0x1000000) c ≡ x * 0x1000000 + c
bit_or_three x c h =
    let e : x * 0x1000000 ≡ 2 ^ 24 * x = omega arith in rw e (bit_or_shift 24 x c h)

pub bit_or_nibble : (x c : ℕ) → c < 16 → bit_or (x * 16) c ≡ x * 16 + c
bit_or_nibble x c h = let e : x * 16 ≡ 2 ^ 4 * x = omega arith in rw e (bit_or_shift 4 x c h)

-- `&` with a mask is at most the mask.
abbrev met : ℕ → ℕ → ℕ → ℕ
met fuel a b = digits (λ rest. 0) min fuel a b

met-le : (fuel a b : ℕ) → met fuel a b ≤ b
met-le zero a b = omega arith
met-le (suc fuel) zero b = omega arith
met-le (suc fuel) (suc a) b = let halves = met-le fuel (suc a / 2) (b / 2) in omega (arith, halves)

pub bit_and-le : (a b : ℕ) → bit_and a b ≤ b
bit_and-le a b = omega (arith, met-le a a b, bit_and-bitwise a b)
