-- ===== src/Ascii.antt =====
-- The text protocols BSTPL-17 and AIS140: the objects that tcp-server/parser/normalParser.js,
-- alertParser.js and ais140Parser.js return.
pub mod Coordinates
pub mod Bstpl
pub mod Ais140
pub mod Validator
pub mod Router
use fueltracks.Prelude.{
  ℕ, Bool, Option, none, some, List, [], ◌∷◌, get_or, ◌==◌, if◌then◌else◌, true, false,
}
use fueltracks.Prelude.Int.{ℤ, pos, pos_part, neg_part, nat_abs}
use fueltracks.Js.Text.{Text, codes}
use fueltracks.Js.Strings.{trim}
use fueltracks.Js.Numbers.{Number, finite, parse_float, is_zero}
use fueltracks.Concox.Fields.{DeviceTime}

-- A coordinate: `null`, `NaN`, an infinity, or a number of units of 1e-7 degrees.
pub data Coordinate : Type 0 where
  null_coordinate nan infinite : Coordinate
  degrees : ℤ → Coordinate

-- `packetType: '$10'` or `'$NRM'`; `null` is a missing time.
pub record TextLocation : Type 0 where
  pub imei : Text
  pub gps_valid : Text
  pub lat : Coordinate
  pub lng : Coordinate
  pub speed : Number
  pub odometer : Number
  pub direction : Number
  pub satellites : ℤ
  pub gsm_signal : ℤ
  pub battery : Number
  pub ignition : Bool
  pub din2 : Bool
  pub din3 : Bool
  pub engine_hours : Number
  pub ain : Number
  pub fuel : Number
  pub voltage : Number
  pub is_live : Bool
  pub device_time : Option DeviceTime
  pub raw_packet : Text

-- the `alertType`s
pub data AlertKind : Type 0 where
  ignition_on ignition_off battery box_open box_close sos overspeed geofence tow harsh_driving :
      AlertKind
  general : AlertKind

-- `packetType: '$11'` or `'$ALT'`
pub record TextAlert : Type 0 where
  pub imei : Text
  pub lat : Coordinate
  pub lng : Coordinate
  pub alert_text : Text
  pub alert_type : AlertKind
  pub device_time : DeviceTime
  pub raw_packet : Text

-- `packetType: '$EPB'`: a location with an alert
pub record Emergency : Type 0 where
  pub location : TextLocation
  pub alert_text : Text
  pub alert_type : AlertKind

pub record LoginText : Type 0 where
  pub imei : Text
  pub vehicle_reg_no : Text
  pub software_version : Text
  pub raw_packet : Text

-- `none` is a battery percentage that is `NaN`.
pub record Health : Type 0 where
  pub imei : Text
  pub battery_percent : Option ℤ
  pub raw_packet : Text

-- `raw.split(',')` has as many fields as the caller has tested: `parts[i].trim()`
abbrev pub part : List Text → ℕ → Text
part parts i = trim (get_or parts i [])

-- an integer as a number
abbrev pub integer : ℤ → Number
integer z = finite (record {
  negative = if neg_part z == 0 then false else true;
  mantissa = nat_abs z;
  exponent = pos 0;
})

abbrev pub whole : ℕ → Number
whole n = integer (pos n)

-- `parseFloat(s) || 0`
unfoldable pub float_or_zero : Text → Number
unfolding parse_float is_zero
float_or_zero s = elim (parse_float s) [
  | none ↦ whole 0
  | some n ↦ if is_zero n then whole 0 else n
]
