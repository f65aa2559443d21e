-- ===== src/Config/Numbers.antt =====
-- The numbers and truth values of the configuration file, and strtoul of the C library.
pub mod RoundTrip
use quic_sni_router.Base.{
  ℕ, ◌+◌, ◌-◌, ◌*◌, ◌%◌, ◌^◌, Bool, true, false, not, ◌&&◌, ◌||◌, Option, none, some, List, [], ◌∷◌,
  ok, err, invalid, ltb, leb, ◌==◌, if◌then◌else◌, same_bytes, Result, reject_if, ◌>>=◌, ◌>>◌,
}

-- `isspace` in the C locale.
abbrev pub is_space : ℕ → Bool
is_space c = c == b' ' || (leb 9 c && leb c 13)

abbrev pub is_digit : ℕ → Bool
is_digit c = leb b'0' c && leb c b'9'

abbrev pub skip_spaces : List ℕ → List ℕ
skip_spaces [] = []
skip_spaces (c ∷ rest) = let later = skip_spaces rest in if is_space c then later else c ∷ rest

-- The digits at the front of the text behind a number already read: the number and the rest.
abbrev pub digits_loop : ℕ → List ℕ → ℕ × List ℕ
digits_loop acc [] = (acc, [])
digits_loop acc (c ∷ rest) =
    let later = digits_loop (acc * 10 + (c - b'0')) rest in
    if is_digit c then later else (acc, c ∷ rest)

abbrev pub starts_with_digit : List ℕ → Bool
starts_with_digit [] = false
starts_with_digit (c ∷ rest) = is_digit c

-- What `strtoul` with base 10 returns: the value, whether `errno` is `ERANGE`, and the text from
-- `end` on.
pub record Converted : Type 0 where
  pub value : ℕ
  pub out_of_range : Bool
  pub end : List ℕ

-- `ULONG_MAX + 1`, and `ULLONG_MAX + 1`
abbrev pub ulong_limit : ℕ
ulong_limit = 2 ^ 64

unfoldable pub convert : Bool → List ℕ → Option Converted
convert negative text =
    if starts_with_digit text
    then (let (value, end) = digits_loop 0 text in
        if leb ulong_limit value
        then some (record { value = ulong_limit - 1; out_of_range = true; end = end })
        else some (record {
          value = if negative then (ulong_limit - value) % ulong_limit else value;
          out_of_range = false;
          end = end;
        }))
    else none

abbrev pub convert_signed : List ℕ → Option Converted
convert_signed [] = none
convert_signed (c ∷ rest) =
    if c == b'-'
    then convert true rest
    else if c == b'+'
    then convert false rest
    else convert false (c ∷ rest)

-- `strtoul(text, &end, 10)` and `strtoull(text, &end, 10)`: blanks, a sign and digits. `none` where
-- there is no digit, which leaves `end == text`.
unfoldable pub strtoul : List ℕ → Option Converted
strtoul text = convert_signed (skip_spaces text)

abbrev pub is_empty : List ℕ → Bool
is_empty [] = true
is_empty (c ∷ rest) = false

-- `parse_u32` behind its call of `strtoul`.
abbrev pub accept_u32 : ℕ → ℕ → List ℕ → Option Converted → Result ℕ
accept_u32 lowest highest text none = err invalid
accept_u32 lowest highest text (some c) = do
  reject_if (is_empty text) invalid
  reject_if (c.out_of_range || (ltb c.value lowest || ltb highest c.value)) invalid
  reject_if (not (is_empty c.end) && not (same_bytes c.end (b's' ∷ []))) invalid
  ok (c.value % 2 ^ 32)

-- `parse_u32`
unfoldable pub parse_u32 : ℕ → ℕ → List ℕ → Result ℕ
parse_u32 lowest highest text = accept_u32 lowest highest text (strtoul text)

-- `parse_size` behind its call of `strtoull`.
abbrev pub accept_size : ℕ → ℕ → List ℕ → Option Converted → Result ℕ
accept_size lowest highest text none = err invalid
accept_size lowest highest text (some c) = do
  reject_if (is_empty text) invalid
  reject_if
      (c.out_of_range || (not (is_empty c.end) || (ltb c.value lowest || ltb highest c.value)))
      invalid
  ok c.value

-- `parse_size`
unfoldable pub parse_size : ℕ → ℕ → List ℕ → Result ℕ
parse_size lowest highest text = accept_size lowest highest text (strtoul text)

-- `parse_bool`
unfoldable pub parse_bool : List ℕ → Result Bool
parse_bool text =
    if same_bytes text (b't' ∷ b'r' ∷ b'u' ∷ b'e' ∷ [])
    then ok true
    else if same_bytes text (b'f' ∷ b'a' ∷ b'l' ∷ b's' ∷ b'e' ∷ [])
    then ok false
    else err invalid

-- `parse_port`
unfoldable pub parse_port : List ℕ → Result ℕ
parse_port text = do value ← parse_u32 1 65535 text; ok (value % 2 ^ 16)
