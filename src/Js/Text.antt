-- ===== src/Js/Text.antt =====
-- Text as a list of code points; the numerals that the parsers print.
use Prim.Native.Char.{code}
use Prim.Native.String.{String}
use fueltracks.Prelude.{
  ℕ, zero, suc, ◌+◌, ◌-◌, ◌/◌, ◌%◌, Bool, true, false, ◌&&◌, List, [], ◌∷◌, ◌++◌, ltb, leb, ◌==◌,
  if◌then◌else◌,
}

abbrev pub Text : Type 0
Text = List ℕ

-- The code points of a literal.
abbrev pub codes : String → Text
codes String.[] = []
codes (String.◌∷◌ c s) = code c ∷ codes s

-- `a === b`
unfoldable pub equal : Text → Text → Bool
equal [] [] = true
equal (x ∷ xs) (y ∷ ys) = x == y && equal xs ys
equal _ _ = false

-- `s.startsWith(prefix)`
unfoldable pub starts_with : Text → Text → Bool
starts_with s [] = true
starts_with [] (c ∷ prefix) = false
starts_with (x ∷ s) (c ∷ prefix) = x == c && starts_with s prefix

abbrev pub is_digit : ℕ → Bool
is_digit c = leb b'0' c && leb c b'9'

-- one digit of `n.toString(16)`, and of its upper case
unfoldable pub hex_digit : ℕ → ℕ
hex_digit n = if ltb n 10 then b'0' + n else b'a' + (n - 10)

unfoldable pub upper_hex_digit : ℕ → ℕ
upper_hex_digit n = if ltb n 10 then b'0' + n else b'A' + (n - 10)

-- `buf.toString('hex').toUpperCase()`
unfoldable pub upper_hex : List ℕ → Text
unfolding upper_hex_digit
upper_hex [] = []
upper_hex (b ∷ buf) = upper_hex_digit (b / 16) ∷ upper_hex_digit (b % 16) ∷ upper_hex buf

-- `String(n)`; a number has no more digits than it counts, so fuel `n` is enough.
decimal_fuel : ℕ → ℕ → Text
decimal_fuel zero n = (b'0' + n) ∷ []
decimal_fuel (suc fuel) n =
    let high = decimal_fuel fuel (n / 10) in
    if ltb n 10 then (b'0' + n) ∷ [] else high ++ (b'0' + n % 10) ∷ []

unfoldable pub decimal : ℕ → Text
unfolding decimal_fuel
decimal n = decimal_fuel n n

-- `String(n).padStart(2, '0')`
unfoldable pub pad : ℕ → Text
unfolding decimal
pad n = if ltb n 10 then b'0' ∷ decimal n else decimal n
