-- ===== src/Historical/Decimal.antt =====
-- Python's `Decimal`, as far as the order-book adapter uses it: reading a plain or exponent
-- notation, and comparing two values. Infinities, NaN, blanks and `_` between digits are refused.
use crypto_microstructure_ma.Prelude.{
  ℕ, ◌+◌, ◌-◌, ◌*◌, ◌^◌, Bool, true, false, not, ◌&&◌, ◌||◌, Option, none, some, [], ◌∷◌, leb, ◌==◌,
  if◌then◌else◌,
}
use crypto_microstructure_ma.Prelude.Int.{ℤ, pos, ltb_ℤ, ◌-ℤ◌}
use crypto_microstructure_ma.Historical.Message.{Text}

-- The value is `coefficient * 10 ^ up / 10 ^ down`, with the sign.
pub record Decimal : Type 0 where
  pub negative : Bool
  pub coefficient : ℕ
  pub up : ℕ
  pub down : ℕ

is_digit : ℕ → Bool
is_digit c = leb b'0' c && leb c b'9'

-- A whole number written in digits only.
read_digits : ℕ → Text → Option ℕ
unfolding is_digit
read_digits acc [] = some acc
read_digits acc (c ∷ cs) = elim (is_digit c) [
  | true ↦ read_digits (acc * 10 + (c - b'0')) cs
  | false ↦ none
]

-- The exponent behind `e`: digits, with a sign in front or not; the text is not empty.
read_exponent : Text → Decimal → Option Decimal
unfolding read_digits
read_exponent [] d = none
read_exponent (c ∷ []) d = if is_digit c then some (record d { up = d.up + (c - b'0') }) else none
read_exponent (c ∷ e ∷ cs) d =
    if c == b'-'
    then elim (read_digits 0 (e ∷ cs)) [
      | none ↦ none
      | some n ↦ some (record d { down = d.down + n })
    ]
    else elim (read_digits 0 (if c == b'+' then e ∷ cs else c ∷ e ∷ cs)) [
      | none ↦ none
      | some n ↦ some (record d { up = d.up + n })
    ]

-- The digits so far, whether a point was read, and whether any digit was.
read_mantissa : Bool → Bool → Decimal → Text → Option Decimal
unfolding read_exponent
read_mantissa point seen d [] = if seen then some d else none
read_mantissa point seen d (c ∷ cs) = elim (is_digit c) [
  | true ↦
      read_mantissa point true
        (record d {
          coefficient = d.coefficient * 10 + (c - b'0');
          down = if point then d.down + 1 else d.down;
        })
        cs
  | false ↦ elim (c == b'.' && not point) [
    | true ↦ read_mantissa true seen d cs
    | false ↦ if (c == b'e' || c == b'E') && seen then read_exponent cs d else none
  ]
]

abbrev zero_decimal : Bool → Decimal
zero_decimal s = record { negative = s; coefficient = 0; up = 0; down = 0 }

-- `Decimal(text)`, or none for `InvalidOperation`.
unfoldable pub decimal : Text → Option Decimal
unfolding read_mantissa
decimal [] = none
decimal (c ∷ cs) =
    if c == b'-'
    then read_mantissa false false (zero_decimal true) cs
    else if c == b'+'
    then read_mantissa false false (zero_decimal false) cs
    else read_mantissa false false (zero_decimal false) (c ∷ cs)

-- The value times `10 ^ (a.down + b.down)`, a whole number for both of two decimals.
scaled : Decimal → ℕ → ℤ
unfolding ◌-ℤ◌
scaled a shift =
    let n = a.coefficient * 10 ^ (a.up + shift) in if a.negative then pos 0 -ℤ pos n else pos n

unfoldable pub decimal_ltb : Decimal → Decimal → Bool
unfolding scaled
decimal_ltb a b = ltb_ℤ (scaled a b.down) (scaled b a.down)

unfoldable pub decimal_positive : Decimal → Bool
unfolding decimal_ltb
decimal_positive a = decimal_ltb (zero_decimal false) a
