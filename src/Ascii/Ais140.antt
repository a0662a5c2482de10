-- ===== src/Ascii/Ais140.antt =====
-- tcp-server/parser/ais140Parser.js: the packets of AIS140.
use Prim.Native.String.{String}
use fueltracks.Prelude.{
  ℕ, ◌-◌, ◌*◌, true, false, Option, none, some, List, [], ◌∷◌, ◌++◌, length, get_or, ltb,
  if◌then◌else◌,
}
use fueltracks.Prelude.Int.{pos}
use fueltracks.Js.Buffer.{Result, ok, err, too_short}
use fueltracks.Js.Text.{Text, codes, equal}
use fueltracks.Js.Strings.{trim, split, remove_first, int_or_zero, parse_int}
use fueltracks.Js.Numbers.{Number, finite, infinity, parse_float, is_zero}
use fueltracks.Ascii.{
  TextLocation, TextAlert, Emergency, LoginText, Health, AlertKind, ignition_on, ignition_off,
  battery, box_open, sos, overspeed, geofence, harsh_driving, general, part, whole, float_or_zero,
}
use fueltracks.Ascii.Bstpl.{or_text, is_one}
use fueltracks.Ascii.Coordinates.{convert_coords, parse_ais140_time, parse_ais140_merged_time}

abbrev entry : AlertKind → String → AlertKind × Text
entry kind text = (kind, codes text)

-- `ALERT_MAP`, in the source's order
abbrev alert_entries : List (Text × (AlertKind × Text))
alert_entries =
    (codes "1", entry general "Location Update")
    ∷ (codes "2", entry general "Location Update (History)")
    ∷ (codes "3", entry battery "Mains Off (Battery Disconnected)")
    ∷ (codes "4", entry battery "Low Battery Alert")
    ∷ (codes "5", entry battery "Low Battery Removed")
    ∷ (codes "6", entry battery "Mains On (Battery Connected)")
    ∷ (codes "7", entry ignition_on "Ignition On")
    ∷ (codes "8", entry ignition_off "Ignition Off")
    ∷ (codes "9", entry box_open "Tamper Alert (Box Open)")
    ∷ (codes "10", entry sos "Emergency On (SOS)")
    ∷ (codes "11", entry sos "Emergency Off (SOS)")
    ∷ (codes "12", entry general "OTA Alert")
    ∷ (codes "13", entry harsh_driving "Harsh Braking Alert")
    ∷ (codes "14", entry harsh_driving "Harsh Acceleration Alert")
    ∷ (codes "15", entry harsh_driving "Rash Turning Alert")
    ∷ (codes "16", entry sos "SOS Button Wire Disconnect Alert")
    ∷ (codes "17", entry overspeed "Overspeed Alert")
    ∷ (codes "18", entry geofence "Geofence In Alert")
    ∷ (codes "19", entry geofence "Geofence Out Alert")
    ∷ (codes "22", entry general "Tilt Alert")
    ∷ (codes "30", entry general "Motion Start")
    ∷ (codes "31", entry general "Motion Stop")
    ∷ (codes "32", entry general "Relay Event")
    ∷ (codes "33", entry general "New ID Detected")
    ∷ (codes "36", entry general "Temperature High Alert")
    ∷ (codes "37", entry general "Temperature Low Alert")
    ∷ (codes "40", entry general "FOTA Failed")
    ∷ []

find : Text → List (Text × (AlertKind × Text)) → Option (AlertKind × Text)
find key [] = none
find key ((k, v) ∷ entries) = let rest = find key entries in if equal k key then some v else rest

-- `ALERT_MAP[alertId] || { type: 'general', text: `Alert ${alertId}` }`
unfoldable pub alert_config : Text → AlertKind × Text
unfolding find
alert_config alert_id = elim (find alert_id alert_entries) [
  | none ↦ (general, codes "Alert " ++ alert_id)
  | some config ↦ config
]

-- `raw.replace('*', '').trim().split(',')`
abbrev pub ais140_parts : Text → List Text
ais140_parts raw = split b',' (trim (remove_first b'*' raw))

-- `parseFloat(s) * 20 || 100`
unfoldable pub battery_estimate : Text → Number
unfolding parse_float is_zero
battery_estimate s = elim (parse_float s) [
  | none ↦ whole 100
  | some n ↦ if is_zero n then whole 100 else elim n [
    | finite d ↦ finite (record d { mantissa = d.mantissa * 20 })
    | infinity minus ↦ infinity minus
  ]
]

-- the fields of a `$NRM` packet of 32 fields or more
unfoldable pub ais140_normal_fields : (Text → Option ℕ) → List Text → Text → TextLocation
ais140_normal_fields date_parse parts raw = record {
  imei = part parts 6;
  gps_valid = if is_one (part parts 8) then codes "A" else codes "V";
  lat = convert_coords (part parts 11) (part parts 12);
  lng = convert_coords (part parts 13) (part parts 14);
  speed = float_or_zero (part parts 15);
  odometer = float_or_zero (or_text parts (length parts - 3) (codes "0"));
  direction = float_or_zero (part parts 16);
  satellites = int_or_zero (part parts 17);
  gsm_signal = int_or_zero (get_or parts 28 []);
  battery = battery_estimate (or_text parts 25 (codes "0"));
  ignition = is_one (part parts 22);
  din2 = false;
  din3 = false;
  engine_hours = whole 0;
  ain = float_or_zero (get_or parts (length parts - 6) []);
  fuel = whole 0;
  voltage = float_or_zero (part parts 24);
  is_live = equal (part parts 5) (codes "L");
  device_time = some (parse_ais140_time date_parse (part parts 9) (part parts 10));
  raw_packet = raw;
}

unfoldable pub parse_ais140_normal_packet : (Text → Option ℕ) → Text → Result TextLocation
parse_ais140_normal_packet date_parse raw =
    let parts = ais140_parts raw in
    if ltb (length parts) 32 then err too_short else ok (ais140_normal_fields date_parse parts raw)

unfoldable pub parse_ais140_alert_packet : (Text → Option ℕ) → Text → Result TextAlert
parse_ais140_alert_packet date_parse raw =
    let parts = ais140_parts raw in
    let (kind, text) = alert_config (part parts 4) in
    if ltb (length parts) 32
    then err too_short
    else ok (record {
      imei = part parts 6;
      lat = convert_coords (part parts 11) (part parts 12);
      lng = convert_coords (part parts 13) (part parts 14);
      alert_text = text;
      alert_type = kind;
      device_time = parse_ais140_time date_parse (part parts 9) (part parts 10);
      raw_packet = raw;
    })

-- the fields of an `$EPB` packet of 14 fields or more
unfoldable pub emergency_fields : (Text → Option ℕ) → List Text → Text → Emergency
emergency_fields date_parse parts raw = record {
  location = record {
    imei = part parts 2;
    gps_valid = part parts 5;
    lat = convert_coords (part parts 6) (part parts 7);
    lng = convert_coords (part parts 8) (part parts 9);
    speed = float_or_zero (part parts 11);
    odometer = whole 0;
    direction = whole 0;
    satellites = pos 8;
    gsm_signal = pos 31;
    battery = whole 100;
    ignition = true;
    din2 = false;
    din3 = false;
    engine_hours = whole 0;
    ain = whole 0;
    fuel = whole 0;
    voltage = whole 12;
    is_live = equal (part parts 3) (codes "NM");
    device_time = some (parse_ais140_merged_time date_parse (part parts 4));
    raw_packet = raw;
  };
  alert_text =
      if equal (part parts 1) (codes "SEM")
      then codes "Stop Message (Emergency Ended)"
      else codes "Emergency Message (SOS Pressed)";
  alert_type = sos;
}

unfoldable pub parse_ais140_emergency_packet : (Text → Option ℕ) → Text → Result Emergency
parse_ais140_emergency_packet date_parse raw =
    let parts = ais140_parts raw in
    if ltb (length parts) 14 then err too_short else ok (emergency_fields date_parse parts raw)

-- `parts[i] ? parts[i].trim() : text`
abbrev part_or : List Text → ℕ → Text → Text
part_or parts i text = elim (get_or parts i []) [ [] ↦ text | c ∷ s ↦ trim (c ∷ s) ]

unfoldable pub parse_ais140_login_packet : Text → LoginText
parse_ais140_login_packet raw =
    let parts = ais140_parts raw in
    record {
      imei = part_or parts 2 (codes "unknown");
      vehicle_reg_no = part_or parts 1 [];
      software_version = part_or parts 3 [];
      raw_packet = raw;
    }

unfoldable pub parse_ais140_health_packet : Text → Health
parse_ais140_health_packet raw =
    let parts = ais140_parts raw in
    record {
      imei = part_or parts 3 (codes "unknown");
      battery_percent = elim (get_or parts 4 []) [
        | [] ↦ some (pos 100)
        | c ∷ s ↦ parse_int (c ∷ s)
      ];
      raw_packet = raw;
    }
