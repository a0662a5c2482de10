-- ===== src/Js/Numbers.antt =====
-- `parseFloat`: the number at the start of a text, as an exact decimal. The program's doubles round
-- such a number to 53 bits, which is not modelled.
use fueltracks.Prelude.{
  ℕ, ◌+◌, ◌-◌, ◌*◌, Bool, true, false, ◌||◌, Option, none, some, [], ◌∷◌, ◌++◌, length, ◌==◌,
  if◌then◌else◌,
}
use fueltracks.Prelude.Int.{ℤ, pos, sub_ℕ, pos_part, neg_part}
use mathlib.Core.Path.{◌≡◌, refl}
use fueltracks.Js.Text.{Text, codes, is_digit, starts_with}

-- ± mantissa * 10 ^ exponent
pub record Decimal : Type 0 where
  pub negative : Bool
  pub mantissa : ℕ
  pub exponent : ℤ

pub data Number : Type 0 where
  finite : Decimal → Number
  infinity : Bool → Number

-- `0` and `-0` are falsy.
unfoldable pub is_zero : Number → Bool
is_zero (finite d) = d.mantissa == 0
is_zero (infinity _) = false

abbrev is_space : ℕ → Bool
is_space c = c == b' ' || c == b'\t' || c == b'\n' || c == b'\r' || c == 11 || c == 12 || c == 160

skip_spaces : Text → Text
skip_spaces [] = []
skip_spaces (c ∷ s) = let rest = skip_spaces s in if is_space c then rest else c ∷ s

-- the longest run of digits, and what follows it
digits_of : Text → Text × Text
digits_of [] = ([], [])
digits_of (c ∷ s) =
    let (ds, rest) = digits_of s in if is_digit c then (c ∷ ds, rest) else ([], c ∷ s)

value : ℕ → Text → ℕ
value n [] = n
value n (c ∷ s) = value (n * 10 + (c - b'0')) s

signed_value : Bool → Text → ℤ
signed_value true ds = sub_ℕ 0 (value 0 ds)
signed_value false ds = pos (value 0 ds)

-- the exponent part, 0 where the text has none
exponent_digits : Bool → Text → ℤ
exponent_digits minus s = signed_value minus (digits_of s).0

exponent_signed : Text → ℤ
exponent_signed [] = pos 0
exponent_signed (c ∷ s) =
    if c == b'-'
    then exponent_digits true s
    else if c == b'+'
    then exponent_digits false s
    else exponent_digits false (c ∷ s)

exponent_of : Text → ℤ
exponent_of [] = pos 0
exponent_of (c ∷ s) = if c == b'e' || c == b'E' then exponent_signed s else pos 0

fraction_of : Text → Text × Text
fraction_of [] = ([], [])
fraction_of (c ∷ s) = if c == b'.' then digits_of s else ([], c ∷ s)

shift_down : ℤ → ℕ → ℤ
shift_down e n = sub_ℕ (pos_part e) (neg_part e + n)

decimal_of : Bool → Text → Text → ℤ → Option Number
decimal_of negative [] [] e = none
decimal_of negative ds fs e = some (
    finite (record {
      negative = negative;
      mantissa = value 0 (ds ++ fs);
      exponent = shift_down e (length fs);
    }))

unsigned : Bool → Text → Option Number
unsigned negative s =
    if starts_with s (codes "Infinity")
    then some (infinity negative)
    else let (ds, rest) = digits_of s in
      let (fs, last) = fraction_of rest in decimal_of negative ds fs (exponent_of last)

signed : Text → Option Number
signed [] = none
signed (c ∷ s) =
    if c == b'-'
    then unsigned true s
    else if c == b'+'
    then unsigned false s
    else unsigned false (c ∷ s)

-- `none` is `NaN`.
unfoldable pub parse_float : Text → Option Number
unfolding skip_spaces digits_of value signed_value exponent_digits exponent_signed exponent_of
    fraction_of shift_down decimal_of unsigned signed starts_with
parse_float s = signed (skip_spaces s)

-- `parseFloat(s) || null`
unfoldable pub float_or_null : Text → Option Number
unfolding parse_float is_zero
float_or_null s = elim (parse_float s) [ none ↦ none | some n ↦ if is_zero n then none else some n ]

price :
    float_or_null (codes " -12.50e3,x")
    ≡ some (finite (record { negative = true; mantissa = 1250; exponent = pos 1 }))
unfolding float_or_null
price = refl
