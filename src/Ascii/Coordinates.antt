-- ===== src/Ascii/Coordinates.antt =====
-- The coordinates and times of the text protocols: tcp-server/utils/gpsConverter.js, `convertCoords`,
-- `parseDeviceTime`, `parseAlertTime`, `parseAis140Time`, `parseAis140MergedTime`. Numbers are exact
-- here; the program's doubles agree to their precision, far below the 1e-7 degrees that are kept.
pub mod Degrees
use fueltracks.Prelude.{
  ℕ, ◌+◌, ◌-◌, ◌*◌, ◌/◌, ◌%◌, ◌^◌, Bool, true, false, not, ◌&&◌, ◌||◌, Option, none, some, List, [],
  ◌∷◌, ◌++◌, length, ltb, ◌==◌, if◌then◌else◌,
}
use fueltracks.Prelude.Int.{ℤ, pos, neg, pos_part, neg_part}
use fueltracks.Js.Text.{Text, codes, equal}
use fueltracks.Js.Strings.{substring}
use fueltracks.Js.Numbers.{Decimal, Number, finite, infinity, parse_float, is_zero}
use fueltracks.Concox.Fields.{DeviceTime, reported, arrival}
use fueltracks.Ascii.{Coordinate, null_coordinate, nan, infinite, degrees}

-- `direction === 'S' || direction === 'W'`
abbrev pub is_negative : Text → Bool
is_negative direction = equal direction (codes "S") || equal direction (codes "W")

abbrev pub signed : Bool → ℕ → ℤ
signed negative units = if negative then neg (pos units) else pos units

abbrev pub differs : Bool → Bool → Bool
differs a b = if a then not b else b

-- numerator and denominator of a decimal
abbrev pub numerator : Decimal → ℕ
numerator d = d.mantissa * 10 ^ pos_part d.exponent

abbrev pub denominator : Decimal → ℕ
denominator d = 10 ^ neg_part d.exponent

-- `Math.floor(value / 100) + (value % 100) / 60` degrees for a value of `n / d`, rounded to units of
-- 1e-7; of a negative value the floor is the ceiling of its size, and the remainder has its sign
unfoldable pub ddm_units : Bool → ℕ → ℕ → ℕ
ddm_units negative n d =
    let whole_degrees : ℕ = if negative then (n + (100 * d - 1)) / (100 * d) else n / (100 * d) in
    whole_degrees * 10 ^ 7 + (n % (100 * d) * 10 ^ 7 * 2 + 60 * d) / (2 * 60 * d)

unfoldable pub ddm_to_decimal : Text → Text → Coordinate
unfolding parse_float is_zero
ddm_to_decimal raw direction = elim (parse_float raw) [
  | none ↦ null_coordinate
  | some value ↦ if is_zero value then null_coordinate else elim value [
    | infinity minus ↦ nan
    | finite d ↦ degrees (
        signed (differs d.negative (is_negative direction))
          (ddm_units d.negative (numerator d) (denominator d)))
  ]
]

-- a decimal rounded to units of 1e-7
unfoldable pub units : ℕ → ℕ → ℕ
units n d = (n * 10 ^ 7 * 2 + d) / (2 * d)

unfoldable pub convert_coords : Text → Text → Coordinate
unfolding parse_float is_zero
convert_coords raw direction = elim (parse_float raw) [
  | none ↦ null_coordinate
  | some value ↦ if is_zero value then null_coordinate else elim value [
    | infinity minus ↦ infinite
    | finite d ↦
        degrees (
          signed (differs d.negative (is_negative direction)) (units (numerator d) (denominator d)))
  ]
]

-- `${year}-${month}-${day}T${hours}:${minutes}:${seconds}Z`
abbrev pub iso_string : Text → Text → Text → Text → Text → Text → Text
iso_string year month day hours minutes seconds =
    year
    ++ b'-' ∷ month
    ++ b'-' ∷ day
    ++ b'T' ∷ hours
    ++ b':' ∷ minutes
    ++ b':' ∷ seconds
    ++ b'Z' ∷ []

-- the ISO text of a BSTPL-17 date DDMMYY and time HHMMSS
abbrev pub bstpl_iso : Text → Text → Text
bstpl_iso date_str time_str =
    iso_string (codes "20" ++ substring 4 6 date_str) (substring 2 4 date_str)
      (substring 0 2 date_str) (substring 0 2 time_str) (substring 2 4 time_str)
      (substring 4 6 time_str)

abbrev or_now : Option ℕ → DeviceTime
or_now none = arrival
or_now (some t) = reported t

-- `null` for a time that is too short or no date
unfoldable pub parse_device_time : (Text → Option ℕ) → Text → Text → Option DeviceTime
parse_device_time date_parse date_str time_str =
    if ltb (length date_str) 6 || ltb (length time_str) 6
    then none
    else elim (date_parse (bstpl_iso date_str time_str)) [
      | none ↦ none
      | some t ↦ some (reported t)
    ]

unfoldable pub parse_alert_time : (Text → Option ℕ) → Text → Text → DeviceTime
parse_alert_time date_parse date_str time_str =
    if ltb (length date_str) 6 || ltb (length time_str) 6
    then arrival
    else or_now (date_parse (bstpl_iso date_str time_str))

-- DDMMYYYY and HHMMSS
unfoldable pub parse_ais140_time : (Text → Option ℕ) → Text → Text → DeviceTime
parse_ais140_time date_parse date_str time_str =
    if ltb (length date_str) 8 || ltb (length time_str) 6
    then arrival
    else or_now (
        date_parse (
          iso_string (substring 4 8 date_str) (substring 2 4 date_str) (substring 0 2 date_str)
            (substring 0 2 time_str) (substring 2 4 time_str) (substring 4 6 time_str)))

-- DDMMYYYYHHMMSS
unfoldable pub parse_ais140_merged_time : (Text → Option ℕ) → Text → DeviceTime
parse_ais140_merged_time date_parse s =
    if ltb (length s) 14
    then arrival
    else or_now (
        date_parse (
          iso_string (substring 4 8 s) (substring 2 4 s) (substring 0 2 s) (substring 8 10 s)
            (substring 10 12 s) (substring 12 14 s)))
