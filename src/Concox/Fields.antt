-- ===== src/Concox/Fields.antt =====
-- The field decoders of tcp-server/parser/concoxParser.js: IMEI, date, GPS block, terminal byte.
-- Coordinates are in units of 1e-7 degrees, the precision to which the source rounds them.
pub mod Imei
pub mod Gps
use fueltracks.Prelude.{
  ℕ, ◌+◌, ◌*◌, ◌/◌, ◌%◌, Bool, true, false, not, ◌&&◌, Option, none, some, List, [], ◌∷◌, ◌++◌,
  bit_and, length, leb, ◌==◌, if◌then◌else◌,
}
use fueltracks.Prelude.Int.{ℤ, pos, neg}
use fueltracks.Js.Buffer.{Bytes, Result, ok, ◌>>=◌, byte, word, read_u32_be}
use fueltracks.Js.Text.{Text, codes, is_digit, hex_digit, decimal, pad}

-- two hex digits for each byte, `b.toString(16).padStart(2, '0')`
unfoldable pub hex : Bytes → Text
unfolding hex_digit
hex [] = []
hex (b ∷ buf) = hex_digit (b / 16) ∷ hex_digit (b % 16) ∷ hex buf

-- `hex.startsWith('0') ? hex.slice(1) : hex`
drop_zero : Text → Text
drop_zero [] = []
drop_zero (c ∷ s) = if c == b'0' then s else c ∷ s

-- The caller hands over a slice of eight bytes.
unfoldable pub decode_imei : Bytes → Text
unfolding hex drop_zero
decode_imei buf = drop_zero (hex buf)

-- The regular expression `^\d{14,16}$`.
unfoldable pub all_digits : Text → Bool
all_digits [] = true
all_digits (c ∷ s) = is_digit c && all_digits s

unfoldable pub is_imei : Text → Bool
unfolding all_digits
is_imei s = all_digits s && leb 14 (length s) && leb (length s) 16

-- The time that a packet bears: the device's clock, in milliseconds, or the moment of parsing where
-- the device's date is no date (`new Date()`).
pub data DeviceTime : Type 0 where
  reported : ℕ → DeviceTime
  arrival : DeviceTime

unfoldable pub iso_date : Bytes → ℕ → Text
unfolding decimal pad
iso_date buf offset =
    decimal (2000 + byte buf offset)
    ++ b'-' ∷ pad (byte buf (offset + 1))
    ++ b'-' ∷ pad (byte buf (offset + 2))
    ++ b'T' ∷ pad (byte buf (offset + 3))
    ++ b':' ∷ pad (byte buf (offset + 4))
    ++ b':' ∷ pad (byte buf (offset + 5))
    ++ b'Z' ∷ []

or_arrival : Option ℕ → DeviceTime
or_arrival none = arrival
or_arrival (some t) = reported t

-- `date_parse` is `new Date(iso).getTime()`, `none` where that is `NaN`: what the host makes of a
-- text that is not in the standard's format is its own.
unfoldable pub parse_date_time : (Text → Option ℕ) → Bytes → ℕ → DeviceTime
unfolding or_arrival
parse_date_time date_parse buf offset = or_arrival (date_parse (iso_date buf offset))

pub record GpsBlock : Type 0 where
  pub satellites : ℕ
  pub lat : ℤ
  pub lng : ℤ
  pub speed : ℕ
  pub heading : ℕ
  pub gps_valid : Bool
  pub raw_course : ℕ
  pub consumed : ℕ

-- `!!(byte & mask)`
abbrev pub flag : ℕ → ℕ → Bool
flag b mask = not (bit_and b mask == 0)

-- `raw / 1800000` degrees, negated or not, `toFixed(7)`: raw * 50 / 9 units, rounded to the nearest.
-- The quotient is never half way between two units.
unfoldable pub coordinate : ℕ → Bool → ℤ
coordinate raw negative =
    let units : ℕ = (raw * 50 + 4) / 9 in if negative then neg (pos units) else pos units

unfoldable pub parse_gps_block : Bytes → ℕ → Result GpsBlock
unfolding coordinate
parse_gps_block buf offset = do
  raw_lat ← read_u32_be buf (offset + 1)
  raw_lng ← read_u32_be buf (offset + 5)
  let course_high = byte buf (offset + 10)
  let course_low = byte buf (offset + 11)
  ok (record {
    satellites = bit_and (byte buf offset) 0x0f;
    lat = coordinate raw_lat (not (flag course_high 0x10));
    lng = coordinate raw_lng (flag course_high 0x20);
    speed = byte buf (offset + 9);
    heading = word (bit_and course_high 0x03) course_low;
    gps_valid = flag course_high 0x40;
    raw_course = word course_high course_low;
    consumed = 12;
  })

pub record TerminalInfo : Type 0 where
  pub oil_cut_off : Bool
  pub gps_tracking : Bool
  pub charging : Bool
  pub acc : Bool
  pub armed : Bool

-- An `undefined` byte has no bit set, as 0 has not.
unfoldable pub parse_terminal_info : ℕ → TerminalInfo
parse_terminal_info b = record {
  oil_cut_off = flag b 0x01;
  gps_tracking = flag b 0x02;
  charging = flag b 0x04;
  acc = flag b 0x08;
  armed = flag b 0x10;
}
