-- ===== src/Float32/Text.antt =====
-- std::stof, as the GNU libraries implement it: strtof in the C locale, and what makes stof throw.
use aeb_node.Prelude.{
  ℕ, ◌+◌, ◌-◌, ◌*◌, ◌%◌, ◌^◌, Bool, true, false, not, ◌&&◌, ◌||◌, [], ◌∷◌, Option, none, some, ltb,
  leb, ◌==◌, if◌then◌else◌,
}
use aeb_node.Prelude.Text.{Text, codes}
use aeb_node.Float32.{Float32, infinity, quiet_nan, one_unit, round_ratio, with_sign}

-- `isspace`
abbrev pub is_space : ℕ → Bool
is_space c = c == b' ' || (leb 9 c && leb c 13)

abbrev pub skip_spaces : Text → Text
skip_spaces [] = []
skip_spaces (c ∷ s) = if is_space c then skip_spaces s else c ∷ s

-- An optional sign: whether it is a minus, and the rest.
abbrev pub read_sign : Text → Bool × Text
read_sign [] = (false, [])
read_sign (c ∷ s) =
    if c == b'-' then (true, s) else if c == b'+' then (false, s) else (false, c ∷ s)

-- The value of a digit in base `base`, 10 or 16.
abbrev pub digit : ℕ → ℕ → Option ℕ
digit base c =
    if leb b'0' c && leb c b'9'
    then some (c - b'0')
    else if base == 16 && leb b'a' c && leb c b'f'
    then some (c - b'a' + 10)
    else if base == 16 && leb b'A' c && leb c b'F'
    then some (c - b'A' + 10)
    else none

-- Digits read so far: their value, and how many they are.
pub record Digits : Type 0 where
  pub value : ℕ
  pub count : ℕ
  pub rest : Text

abbrev pub more_digits : ℕ → ℕ → ℕ → Text → Digits
more_digits base v n [] = record { value = v; count = n; rest = [] }
more_digits base v n (c ∷ s) = elim (digit base c) [
  | none ↦ record { value = v; count = n; rest = c ∷ s }
  | some d ↦ more_digits base (v * base + d) (n + 1) s
]

-- Digits with a radix point in them, and how many follow the point.
record Mantissa : Type 0 where
  all : Digits
  fraction : ℕ

abbrev read_fraction : ℕ → Digits → Text → Mantissa
read_fraction base whole [] = record { all = whole; fraction = 0 }
read_fraction base whole (c ∷ s) =
    let both = more_digits base whole.value whole.count s in
    if c == b'.'
    then record { all = both; fraction = both.count - whole.count }
    else record { all = whole; fraction = 0 }

abbrev read_mantissa : ℕ → Text → Mantissa
read_mantissa base s = let whole = more_digits base 0 0 s in read_fraction base whole whole.rest

-- An exponent, after the letter `lower` or `upper`; without digits there is none.
abbrev read_exponent : ℕ → ℕ → Text → Bool × ℕ
read_exponent lower upper [] = (false, 0)
read_exponent lower upper (c ∷ s) =
    let (negative, t) = read_sign s in
    let digits = more_digits 10 0 0 t in
    if (c == lower || c == upper) && not (digits.count == 0)
    then (negative, digits.value)
    else (false, 0)

-- What strtof makes of the text behind the sign: no number, an infinity or a NaN, or a fraction
-- num / den.
pub data Number : Type 0 where
  no_number infinite not_a_number : Number
  fraction : ℕ → ℕ → Number

-- m * radix ^ (exponent - places)
abbrev scaled : ℕ → Bool × ℕ → ℕ → ℕ → Number
scaled radix e places m =
    if e.0
    then fraction m (radix ^ (e.1 + places))
    else fraction (m * radix ^ (e.1 - places)) (radix ^ (places - e.1))

read_decimal : Text → Number
read_decimal s =
    let m = read_mantissa 10 s in
    if m.all.count == 0
    then no_number
    else scaled 10 (read_exponent b'e' b'E' m.all.rest) m.fraction m.all.value

-- Each hexadecimal place is four binary ones. Without a digit, the number is the 0 before the x.
read_hexadecimal : Text → Number
read_hexadecimal s =
    let m = read_mantissa 16 s in
    if m.all.count == 0
    then fraction 0 1
    else scaled 2 (read_exponent b'p' b'P' m.all.rest) (4 * m.fraction) m.all.value

lower : ℕ → ℕ
lower c = if leb b'A' c && leb c b'Z' then c + 32 else c

-- Whether a text starts with a word, letters of either case.
starts_with_word : Text → Text → Bool
unfolding lower
starts_with_word s [] = true
starts_with_word [] (d ∷ word) = false
starts_with_word (c ∷ s) (d ∷ word) = lower c == d && starts_with_word s word

after_prefix : Text → Text
after_prefix (c ∷ d ∷ s) = s
after_prefix s = []

unfoldable pub read_number : Text → Number
unfolding read_decimal read_hexadecimal starts_with_word after_prefix
read_number s =
    if starts_with_word s (codes "inf")
    then infinite
    else if starts_with_word s (codes "nan")
    then not_a_number
    else if starts_with_word s (codes "0x")
    then read_hexadecimal (after_prefix s)
    else read_decimal s

-- The float nearest to num / den. `none` is ERANGE: it is infinite, or it is below the least normal
-- number and not exact.
unfoldable pub nearest : Bool → ℕ → ℕ → Option Float32
unfolding round_ratio one_unit
nearest negative num den =
    let m = round_ratio (num * one_unit) den in
    if m == infinity || (ltb m 0x0080_0000 && not ((num * one_unit) % den == 0))
    then none
    else some (with_sign negative m)

-- `std::stof(value)`; `none`: it throws. What follows the number is ignored, and a NaN's payload is
-- left out.
unfoldable pub stof : Text → Option Float32
unfolding read_number nearest
stof value =
    let (negative, s) = read_sign (skip_spaces value) in
    elim (read_number s) [
      | no_number ↦ none
      | infinite ↦ some (with_sign negative infinity)
      | not_a_number ↦ some (with_sign negative quiet_nan)
      | fraction num den ↦ nearest negative num den
    ]
