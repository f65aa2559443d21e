-- ===== src/Config/Numbers/RoundTrip.antt =====
-- What the numbers of the configuration file mean: their bounds, and that every decimal numeral in
-- bounds is read back.
use quic_sni_router.Base.{
  ℕ, zero, suc, ◌+◌, ◌-◌, ◌*◌, ◌/◌, ◌%◌, ◌^◌, ◌≤◌, ◌<◌, ◌≡◌, refl, ◌⊎◌, inl, inr, true, false, not,
  ◌&&◌, ◌||◌, Option, none, some, List, [], ◌∷◌, ◌++◌, arith, ok, invalid, ltb, leb, ◌==◌,
  if◌then◌else◌, ltb→le, Bool-cases, All, All-append, same_bytes, Safe, Safe-bind, Safe-reject_if,
}
use quic_sni_router.Config.Numbers.{
  Converted, is_space, is_digit, digits_loop, starts_with_digit, ulong_limit, convert, strtoul,
  is_empty, parse_u32, parse_size, parse_port, accept_u32, accept_size,
}

abbrev Within : ℕ → ℕ → ℕ → Type 0
Within lowest highest value = (lowest ≤ value) × (value ≤ highest)

accept_u32-Safe :
    (lowest highest : ℕ) (text : List ℕ) (converted : Option Converted)
    → highest < 2 ^ 32
    → Safe (Within lowest highest) (accept_u32 lowest highest text converted)
accept_u32-Safe lowest highest text none h = tt
accept_u32-Safe lowest highest text (some c) h =
    Safe-reject_if _ (is_empty text) invalid _ λ filled.
      Safe-reject_if _ (c.out_of_range || (ltb c.value lowest || ltb highest c.value)) invalid _
        λ inside.
          Safe-reject_if _ (not (is_empty c.end) && not (same_bytes c.end (b's' ∷ []))) invalid _
            λ ended.
              let above : ltb c.value lowest ≡ false = ground arith in
              let below : ltb highest c.value ≡ false = ground arith in
              let a = ltb→le _ _ above in let b = ltb→le _ _ below in (omega arith, omega arith)

accept_size-Safe :
    (lowest highest : ℕ) (text : List ℕ) (converted : Option Converted)
    → Safe (Within lowest highest) (accept_size lowest highest text converted)
accept_size-Safe lowest highest text none = tt
accept_size-Safe lowest highest text (some c) = Safe-reject_if _ (is_empty text) invalid _ λ filled.
    Safe-reject_if _
      (c.out_of_range || (not (is_empty c.end) || (ltb c.value lowest || ltb highest c.value)))
      invalid _ λ inside. (ground arith, ground arith)

-- The numbers that `parse_u32` and `parse_size` return are in the bounds that they are given.
pub parse_u32-Safe :
    (lowest highest : ℕ) (text : List ℕ)
    → highest < 2 ^ 32
    → Safe (Within lowest highest) (parse_u32 lowest highest text)
unfolding parse_u32
parse_u32-Safe lowest highest text h = accept_u32-Safe lowest highest text (strtoul text) h

pub parse_size-Safe :
    (lowest highest : ℕ) (text : List ℕ)
    → Safe (Within lowest highest) (parse_size lowest highest text)
unfolding parse_size
parse_size-Safe lowest highest text = accept_size-Safe lowest highest text (strtoul text)

pub parse_port-Safe :
    (text : List ℕ) → Safe (λ port. (1 ≤ port) × (port < 2 ^ 16)) (parse_port text)
unfolding parse_port
parse_port-Safe text =
    Safe-bind _ _ (parse_u32 1 65535 text) _ (parse_u32-Safe 1 65535 text (omega arith))
      λ value bounds. (omega arith, omega arith)

-- The decimal numeral of a number; as many digits as the fuel at most.
abbrev decimal_loop : ℕ → ℕ → List ℕ
decimal_loop zero n = []
decimal_loop (suc fuel) n =
    let front = decimal_loop fuel (n / 10) in
    if ltb n 10 then (b'0' + n) ∷ [] else front ++ ((b'0' + n % 10) ∷ [])

abbrev pub decimal : ℕ → List ℕ
decimal n = decimal_loop (suc n) n

-- The number of a list of digits, behind a number already read.
abbrev numeral_value : ℕ → List ℕ → ℕ
numeral_value acc [] = acc
numeral_value acc (c ∷ rest) = numeral_value (acc * 10 + (c - b'0')) rest

abbrev IsDigit : ℕ → Type 0
IsDigit c = is_digit c ≡ true

numeral_value-append :
    (acc : ℕ) (xs : List ℕ) (c : ℕ)
    → numeral_value acc (xs ++ (c ∷ [])) ≡ numeral_value acc xs * 10 + (c - b'0')
numeral_value-append acc [] c = refl
numeral_value-append acc (x ∷ xs) c = numeral_value-append (acc * 10 + (x - b'0')) xs c

decimal_loop-value : (fuel n : ℕ) → n < fuel → numeral_value 0 (decimal_loop fuel n) ≡ n
decimal_loop-value zero n h = absurd (omega arith)
decimal_loop-value (suc fuel) n h = elim (Bool-cases (ltb n 10)) [
  | inl small ↦ rw small (omega arith)
  | inr large ↦
      let big : 10 ≤ n = ltb→le n 10 large in
      let less : n / 10 < fuel = omega arith in
      rw
        (
          large,
          numeral_value-append 0 (decimal_loop fuel (n / 10)) (b'0' + n % 10),
          decimal_loop-value fuel (n / 10) less,
        )
        (omega arith)
]

decimal_loop-IsDigit : (fuel n : ℕ) → All IsDigit (decimal_loop fuel n)
decimal_loop-IsDigit zero n = tt
decimal_loop-IsDigit (suc fuel) n = elim (Bool-cases (ltb n 10)) [
  | inl small ↦ rw small (ground arith, tt)
  | inr large ↦ rw large (
      All-append IsDigit (decimal_loop fuel (n / 10)) ((b'0' + n % 10) ∷ [])
        (decimal_loop-IsDigit fuel (n / 10)) (ground arith, tt))
]

decimal_loop-filled : (fuel n : ℕ) → n < fuel → is_empty (decimal_loop fuel n) ≡ false
decimal_loop-filled zero n h = absurd (omega arith)
decimal_loop-filled (suc fuel) n h = elim (Bool-cases (ltb n 10)) [
  | inl small ↦ rw small refl
  | inr large ↦ rw large (append_filled (decimal_loop fuel (n / 10)) (b'0' + n % 10))
]
  where
    append_filled : (xs : List ℕ) (c : ℕ) → is_empty (xs ++ (c ∷ [])) ≡ false
    append_filled [] c = refl
    append_filled (x ∷ xs) c = refl

abbrev StopsDigits : List ℕ → Type 0
StopsDigits rest = starts_with_digit rest ≡ false

digits_loop-append :
    (acc : ℕ) (xs rest : List ℕ)
    → All IsDigit xs
    → StopsDigits rest
    → digits_loop acc (xs ++ rest) ≡ (numeral_value acc xs, rest)
digits_loop-append acc [] [] all h = refl
digits_loop-append acc [] (c ∷ rest) all h = rw h refl
digits_loop-append acc (x ∷ xs) rest all h =
    rw all.0 (digits_loop-append (acc * 10 + (x - b'0')) xs rest all.1 h)

-- On a numeral below 2 ^ 64 the conversion returns its number and stops behind it.
strtoul-digits :
    (xs rest : List ℕ)
    → All IsDigit xs
    → is_empty xs ≡ false
    → StopsDigits rest
    → numeral_value 0 xs < ulong_limit
    → strtoul (xs ++ rest)
      ≡ some (record { value = numeral_value 0 xs; out_of_range = false; end = rest })
unfolding strtoul convert
strtoul-digits [] rest all filled stops small = cc
strtoul-digits (x ∷ xs) rest all filled stops small =
    let blank : is_space x ≡ false = ground (arith, all.0) in
    let minus : (x == b'-') ≡ false = ground (arith, all.0) in
    let plus : (x == b'+') ≡ false = ground (arith, all.0) in
    let in_range : leb ulong_limit (numeral_value 0 (x ∷ xs)) ≡ false = ground arith in
    rw (blank, minus, plus, all.0, digits_loop-append (0 * 10 + (x - b'0')) xs rest all.1 stops)
      (rw in_range refl)

accepts_suffix :
    (suffix : List ℕ)
    → (suffix ≡ []) ⊎ (suffix ≡ b's' ∷ [])
    → (StopsDigits suffix
        × ((not (is_empty suffix) && not (same_bytes suffix (b's' ∷ []))) ≡ false))
accepts_suffix suffix (inl e) = rw e (refl, refl)
accepts_suffix suffix (inr e) = rw e (refl, refl)

filled_append : (xs ys : List ℕ) → is_empty xs ≡ false → is_empty (xs ++ ys) ≡ false
filled_append [] ys h = cc
filled_append (x ∷ xs) ys h = refl

-- `parse_u32` reads back the decimal numeral of every number in the bounds that it is given, alone
-- or with the suffix "s".
pub parse_u32-decimal :
    (lowest highest n : ℕ) (suffix : List ℕ)
    → lowest ≤ n
    → n ≤ highest
    → highest < 2 ^ 32
    → (suffix ≡ []) ⊎ (suffix ≡ b's' ∷ [])
    → parse_u32 lowest highest (decimal n ++ suffix) ≡ ok n
unfolding parse_u32
parse_u32-decimal lowest highest n suffix low high small ends =
    parsed (decimal n) (decimal_loop-value (suc n) n (omega arith))
      (decimal_loop-filled (suc n) n (omega arith)) (decimal_loop-IsDigit (suc n) n)
  where
    parsed :
        (digits : List ℕ)
        → numeral_value 0 digits ≡ n
        → is_empty digits ≡ false
        → All IsDigit digits
        → parse_u32 lowest highest (digits ++ suffix) ≡ ok n
    parsed digits value filled all =
        let (stops, accepted) = accepts_suffix suffix ends in
        let fits : numeral_value 0 digits < ulong_limit = omega arith in
        let above : ltb n lowest ≡ false = ground arith in
        let below : ltb highest n ≡ false = ground arith in
        let wraps : n % 2 ^ 32 ≡ n = omega arith in
        rw
          (
            strtoul-digits digits suffix all filled stops fits,
            value,
            filled_append digits suffix filled,
            above,
            below,
            accepted,
            wraps,
          )
          refl
