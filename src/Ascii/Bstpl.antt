-- ===== src/Ascii/Bstpl.antt =====
-- tcp-server/parser/normalParser.js and alertParser.js: the packets of BSTPL-17.
pub mod Lines
use Prim.Native.String.{String}
use fueltracks.Prelude.{
  ℕ, ◌+◌, Bool, true, false, Option, none, some, List, [], ◌∷◌, length, get_or, drop, ltb,
  if◌then◌else◌,
}
use fueltracks.Prelude.Int.{pos}
use fueltracks.Js.Buffer.{Result, ok, err, too_short}
use fueltracks.Js.Text.{Text, codes, equal}
use fueltracks.Js.Strings.{trim, split, join, remove_first, includes, to_lower_case, int_or_zero}
use fueltracks.Ascii.{
  TextLocation, TextAlert, AlertKind, ignition_on, ignition_off, battery, box_open, box_close, sos,
  overspeed, geofence, tow, harsh_driving, general, part, integer, float_or_zero,
}
use fueltracks.Ascii.Coordinates.{ddm_to_decimal, parse_device_time, parse_alert_time}

-- `parts[i] || text`
abbrev pub or_text : List Text → ℕ → Text → Text
or_text parts i text = elim (get_or parts i []) [ [] ↦ text | c ∷ s ↦ c ∷ s ]

abbrev pub is_one : Text → Bool
is_one s = equal s (codes "1")

-- the fields of a `$10` packet of 22 fields or more
unfoldable pub normal_fields : (Text → Option ℕ) → List Text → Text → TextLocation
normal_fields date_parse parts raw = record {
  imei = part parts 1;
  gps_valid = part parts 2;
  lat = ddm_to_decimal (part parts 5) (part parts 6);
  lng = ddm_to_decimal (part parts 7) (part parts 8);
  speed = integer (int_or_zero (part parts 9));
  odometer = integer (int_or_zero (part parts 10));
  direction = integer (int_or_zero (part parts 11));
  satellites = int_or_zero (part parts 12);
  gsm_signal = int_or_zero (part parts 13);
  battery = integer (int_or_zero (part parts 14));
  ignition = is_one (part parts 15);
  din2 = is_one (part parts 16);
  din3 = is_one (part parts 17);
  engine_hours = float_or_zero (part parts 18);
  ain = float_or_zero (part parts 19);
  fuel = float_or_zero (part parts 20);
  voltage = float_or_zero (part parts 21);
  is_live = equal (trim (remove_first b'#' (or_text parts 22 (codes "L")))) (codes "L");
  device_time = parse_device_time date_parse (part parts 3) (part parts 4);
  raw_packet = raw;
}

unfoldable pub parse_normal_packet : (Text → Option ℕ) → Text → Result TextLocation
parse_normal_packet date_parse raw =
    let parts = split b',' raw in
    if ltb (length parts) 22 then err too_short else ok (normal_fields date_parse parts raw)

unfoldable pub categorize_alert : Text → AlertKind
categorize_alert alert_text =
    let text = to_lower_case alert_text in
    if includes text (codes "ignition on")
    then ignition_on
    else if includes text (codes "ignition off")
    then ignition_off
    else if includes text (codes "battery")
    then battery
    else if includes text (codes "box open")
    then box_open
    else if includes text (codes "box close")
    then box_close
    else if includes text (codes "sos")
    then sos
    else if includes text (codes "overspeed")
    then overspeed
    else if includes text (codes "geofence")
    then geofence
    else if includes text (codes "tow")
    then tow
    else if includes text (codes "harsh")
    then harsh_driving
    else general

-- the fields of a `$11` packet of 9 fields or more: the text may contain commas
unfoldable pub alert_fields : (Text → Option ℕ) → List Text → Text → TextAlert
alert_fields date_parse parts raw =
    let alert_text = trim (remove_first b'#' (join b',' (drop 8 parts))) in
    record {
      imei = part parts 1;
      lat = ddm_to_decimal (part parts 4) (part parts 5);
      lng = ddm_to_decimal (part parts 6) (part parts 7);
      alert_text = alert_text;
      alert_type = categorize_alert alert_text;
      device_time = parse_alert_time date_parse (part parts 2) (part parts 3);
      raw_packet = raw;
    }

unfoldable pub parse_alert_packet : (Text → Option ℕ) → Text → Result TextAlert
parse_alert_packet date_parse raw =
    let parts = split b',' raw in
    if ltb (length parts) 9 then err too_short else ok (alert_fields date_parse parts raw)
