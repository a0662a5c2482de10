-- ===== src/Concox/Parsers.antt =====
-- The sub-parsers of tcp-server/parser/concoxParser.js, one for each kind of information content.
pub mod Info
pub mod Lengths
pub mod Fix
use fueltracks.Prelude.{
  ℕ, ◌+◌, ◌-◌, ◌*◌, ◌/◌, ◌^◌, Bool, true, false, ◌&&◌, not, Option, none, some, List, [], ◌∷◌, ◌++◌,
  bit_or, length, get_elem?, ltb, leb, ◌==◌, if◌then◌else◌,
}
use fueltracks.Prelude.Int.{ℤ, nat_abs}
use fueltracks.Js.Buffer.{
  Bytes, Result, ok, err, too_short, invalid_imei, type_error, ◌>>=◌, ◌>>◌, byte, slice,
  read_u16_be, read_u32_be,
}
use fueltracks.Js.Text.{Text, codes, upper_hex_digit}
use fueltracks.Concox.Fields.{
  decode_imei, is_imei, parse_date_time, GpsBlock, parse_gps_block, parse_terminal_info,
}
use fueltracks.Concox.Tables.{
  AlarmInfo, general, concox_alarm_map, battery_level_map, gsm_signal_map,
}
use fueltracks.Concox.Packets.{Login, Heartbeat, Validity, valid, void, Cell, Location, Alarm}

-- `if (info.length < n) throw new Error(…)`
abbrev pub at_least : ℕ → Bytes → Result (Unit {0})
at_least n info = if ltb (length info) n then err too_short else ok tt

abbrev check : Bool → Result (Unit {0})
check b = if b then ok tt else err invalid_imei

-- `imei || null`: the empty text is falsy.
unfoldable pub or_null : Option Text → Option Text
or_null none = none
or_null (some []) = none
or_null (some (c ∷ s)) = some (c ∷ s)

unfoldable pub parse_login : Bytes → ℕ → Result Login
parse_login info serial_number = do
  at_least 12 info
  let imei = decode_imei (slice 0 8 info)
  model_code ← read_u16_be info 8
  tz_lang ← read_u16_be info 10
  check (is_imei imei)
  ok (record {
    imei = imei;
    model_code = model_code;
    tz_lang = tz_lang;
    serial_number = serial_number;
    raw_packet_type = 0x01;
  })

-- the default of a level that a map does not know
or_fifty : Option ℕ → ℕ
or_fifty none = 50
or_fifty (some percent) = percent

-- the fields of a heartbeat at their offsets; `batt` is `none` where the packet has no battery byte
heartbeat_fields : Bytes → Option ℕ → ℕ → ℕ → ℕ → Option Text → ℕ → Result Heartbeat
unfolding or_fifty or_null
heartbeat_fields info batt gsm_level lang_at serial_number imei raw_packet_type = do
  let term_info = parse_terminal_info (byte info 0)
  lang_status ← read_u16_be info lang_at
  ok (record {
    imei = or_null imei;
    terminal_info = term_info;
    ignition = term_info.acc;
    batt_percent = elim batt [ none ↦ 50 | some level ↦ or_fifty (battery_level_map level) ];
    gsm_strength = or_fifty (gsm_signal_map gsm_level);
    lang_status = lang_status;
    serial_number = serial_number;
    raw_packet_type = raw_packet_type;
  })

unfoldable pub parse_heartbeat : Bytes → ℕ → Option Text → ℕ → Result Heartbeat
unfolding heartbeat_fields
parse_heartbeat info serial_number imei raw_packet_type =
    if raw_packet_type == 0x23
    then (do
      at_least 4 info
      heartbeat_fields info none (byte info 1) 2 serial_number imei raw_packet_type)
    else (do
      at_least 5 info
      heartbeat_fields info (some (byte info 1)) (byte info 2) 3 serial_number imei raw_packet_type)

-- `(b0 << 16) | (b1 << 8) | b2`
abbrev cell_id : Bytes → ℕ → ℕ
cell_id info pos =
    bit_or (bit_or (byte info pos * 2 ^ 16) (byte info (pos + 1) * 2 ^ 8)) (byte info (pos + 2))

-- `Math.round(raw / 1000)`
unfoldable pub to_km : ℕ → ℕ
to_km raw = (raw + 500) / 1000

-- `'A'` if the fix flag is set, or if both coordinates are nonzero (clones never set the flag).
unfoldable pub final_gps_valid : GpsBlock → Validity
final_gps_valid gps =
    if gps.gps_valid
    then valid
    else if not (nat_abs gps.lat == 0) && not (nat_abs gps.lng == 0)
    then valid
    else void

-- `info.length >= at + 4 ? Math.round(info.readUInt32BE(at) / 1000) : null`
unfoldable pub mileage : Bytes → ℕ → Result (Option ℕ)
mileage info at =
    if ltb (length info) (at + 4)
    then ok none
    else (do raw ← read_u32_be info at; ok (some (to_km raw)))

unfoldable pub parse_location : (Text → Option ℕ) → Bytes → ℕ → Option Text → ℕ → Result Location
unfolding mileage or_null
parse_location date_parse info serial_number imei raw_packet_type = do
  at_least 29 info
  let device_time = parse_date_time date_parse info 0
  gps ← parse_gps_block info 6
  mcc ← read_u16_be info 18
  lac ← read_u16_be info 21
  odometer ← mileage info 29
  ok (record {
    imei = or_null imei;
    device_time = device_time;
    lat = gps.lat;
    lng = gps.lng;
    speed = gps.speed;
    direction = gps.heading;
    satellites = gps.satellites;
    gps_valid = final_gps_valid gps;
    raw_course = gps.raw_course;
    ignition = byte info 26 == 0x01;
    is_live = not (byte info 28 == 0x01);
    odometer = odometer;
    fuel = 0;
    voltage = 0;
    battery = 50;
    gsm_signal = 0;
    serial_number = serial_number;
    raw_packet_type = raw_packet_type;
    cell = record { mcc = mcc; mnc = byte info 20; lac = lac; cell_id = cell_id info 23 };
    data_upload_mode = byte info 27;
    re_upload_flag = byte info 28;
  })

-- `n.toString(16).toUpperCase()` of a byte
upper_hex_byte : ℕ → Text
unfolding upper_hex_digit
upper_hex_byte n =
    if ltb n 16
    then upper_hex_digit n ∷ []
    else upper_hex_digit (n / 16) ∷ upper_hex_digit (n - n / 16 * 16) ∷ []

-- `CONCOX_ALARM_MAP[alarmCode] || { … alarmCode.toString(16) … }`: of `undefined` the call throws.
unfoldable pub alarm_info_of : Option ℕ → Result (ℕ × AlarmInfo)
unfolding upper_hex_byte
alarm_info_of none = err type_error
alarm_info_of (some code) = ok (
  code,
  elim (concox_alarm_map code) [
    | none ↦ record {
      type = general;
      text = codes "Unknown Alarm (0x" ++ upper_hex_byte code ++ codes ")";
    }
    | some known ↦ known
  ],
)

-- the fields behind the alarm word: fence number and mileage
alarm_tail : Bool → Bytes → Result (Option ℕ × Option ℕ)
unfolding mileage
alarm_tail true info = ok (get_elem? info 32, get_elem? info 33)
alarm_tail false info = do odometer ← mileage info 32; ok (none, odometer)

unfoldable pub parse_alarm : (Text → Option ℕ) → Bytes → ℕ → Option Text → Bool → ℕ → Result Alarm
unfolding alarm_tail or_fifty or_null
parse_alarm date_parse info serial_number imei is_multi_fence raw_packet_type = do
  at_least 26 info
  let device_time = parse_date_time date_parse info 0
  gps ← parse_gps_block info 6
  mcc ← read_u16_be info 19
  lac ← read_u16_be info 22
  let term_info = parse_terminal_info (byte info 27)
  (alarm_code, alarm_info) ← alarm_info_of (get_elem? info 30)
  (fence_no, odometer) ← alarm_tail is_multi_fence info
  ok (record {
    multi = is_multi_fence;
    imei = or_null imei;
    device_time = device_time;
    lat = gps.lat;
    lng = gps.lng;
    speed = gps.speed;
    direction = gps.heading;
    satellites = gps.satellites;
    gps_valid = final_gps_valid gps;
    ignition = term_info.acc;
    is_live = true;
    odometer = odometer;
    fuel = 0;
    voltage = 0;
    battery = or_fifty (battery_level_map (byte info 28));
    gsm_signal = or_fifty (gsm_signal_map (byte info 29));
    alert_type = alarm_info.type;
    alert_text = alarm_info.text;
    alarm_code = alarm_code;
    fence_no = fence_no;
    serial_number = serial_number;
    raw_packet_type =
        if raw_packet_type == 0 then (if is_multi_fence then 0x27 else 0x26) else raw_packet_type;
    cell = record { mcc = mcc; mnc = byte info 21; lac = lac; cell_id = cell_id info 24 };
    lbs_length = byte info 18;
    term_info = term_info;
    lang_byte = get_elem? info 31;
  })
