-- ===== src/Js/Strings.antt =====
-- What the text parsers use of JavaScript's strings.
pub mod Split
use fueltracks.Prelude.{
  ℕ, zero, suc, ◌+◌, ◌-◌, ◌*◌, ◌≡◌, refl, Bool, true, false, ◌&&◌, ◌||◌, Option, none, some, List,
  [], ◌∷◌, ◌++◌, take, drop, ltb, leb, ◌==◌, if◌then◌else◌,
}
use fueltracks.Prelude.Int.{ℤ, pos, neg}
use fueltracks.Js.Text.{Text, codes, is_digit, starts_with}

-- white space, as `trim`, `parseInt` and `parseFloat` know it
abbrev pub is_white : ℕ → Bool
is_white c =
    leb 9 c && leb c 13
    || c == 32
    || c == 160
    || c == 0x1680
    || leb 0x2000 c && leb c 0x200a
    || c == 0x2028
    || c == 0x2029
    || c == 0x202f
    || c == 0x205f
    || c == 0x3000
    || c == 0xfeff

-- `s.trimStart()`
unfoldable pub trim_start : Text → Text
trim_start [] = []
trim_start (c ∷ s) = let rest = trim_start s in if is_white c then rest else c ∷ s

-- `s.trimEnd()`
unfoldable pub trim_end : Text → Text
trim_end [] = []
trim_end (c ∷ s) = elim (trim_end s) [ [] ↦ if is_white c then [] else c ∷ [] | d ∷ t ↦ c ∷ d ∷ t ]

unfoldable pub trim : Text → Text
unfolding trim_start trim_end
trim s = trim_end (trim_start s)

-- `c` put before the first of the parts
abbrev pub extend : ℕ → List Text → List Text
extend c [] = (c ∷ []) ∷ []
extend c (part ∷ parts) = (c ∷ part) ∷ parts

-- `s.split(d)` for a separator of one character: at least one part
unfoldable pub split : ℕ → Text → List Text
split d [] = [] ∷ []
split d (c ∷ s) = let parts = split d s in if c == d then [] ∷ parts else extend c parts

-- `parts.join(d)`
unfoldable pub join : ℕ → List Text → Text
join d [] = []
join d (part ∷ []) = part
join d (part ∷ next ∷ parts) = part ++ d ∷ join d (next ∷ parts)

-- `s.replace(d, '')`: the first one only
unfoldable pub remove_first : ℕ → Text → Text
remove_first d [] = []
remove_first d (c ∷ s) = let rest = remove_first d s in if c == d then s else c ∷ rest

-- `s.includes(t)`
unfoldable pub includes : Text → Text → Bool
unfolding starts_with
includes [] t = starts_with [] t
includes (c ∷ s) t = starts_with (c ∷ s) t || includes s t

-- `s.toLowerCase()`, of the letters that the parsers look for
unfoldable pub to_lower_case : Text → Text
to_lower_case [] = []
to_lower_case (c ∷ s) = (if leb b'A' c && leb c b'Z' then c + 32 else c) ∷ to_lower_case s

-- `s.substring(from, to)`, where `from` is at most `to`
abbrev pub substring : ℕ → ℕ → Text → Text
substring from to s = take (to - from) (drop from s)

-- the value of a digit to a base, if it is one
abbrev digit_value : ℕ → ℕ → Option ℕ
digit_value base c =
    if is_digit c
    then some (c - b'0')
    else if base == 16 && leb b'a' c && leb c b'f'
    then some (c - b'a' + 10)
    else if base == 16 && leb b'A' c && leb c b'F'
    then some (c - b'A' + 10)
    else none

-- the digits at the start of a text, after those that are worth `n`; `none` before the first digit
integer_digits : ℕ → Option ℕ → Text → Option ℕ
integer_digits base n [] = n
integer_digits base n (c ∷ s) = elim (digit_value base c) [
  | none ↦ n
  | some d ↦ integer_digits base (some (elim n [ none ↦ d | some m ↦ m * base + d ])) s
]

integer_unsigned : Text → Option ℕ
integer_unsigned s =
    if starts_with s (codes "0x") || starts_with s (codes "0X")
    then integer_digits 16 none (drop 2 s)
    else integer_digits 10 none s

integer_signed : Text → Option ℤ
integer_signed [] = none
integer_signed (c ∷ s) =
    if c == b'-'
    then elim (integer_unsigned s) [ none ↦ none | some n ↦ some (neg (pos n)) ]
    else elim (integer_unsigned (if c == b'+' then s else c ∷ s)) [
      | none ↦ none
      | some n ↦ some (pos n)
    ]

-- `parseInt(s)`, `none` for `NaN`
unfoldable pub parse_int : Text → Option ℤ
unfolding integer_digits integer_unsigned integer_signed trim_start starts_with
parse_int s = integer_signed (trim_start s)

-- `parseInt(s) || 0`
unfoldable pub int_or_zero : Text → ℤ
unfolding parse_int
int_or_zero s = elim (parse_int s) [ none ↦ pos 0 | some n ↦ n ]

int_test : int_or_zero (codes " 120 km") ≡ pos 120
unfolding int_or_zero
int_test = refl
