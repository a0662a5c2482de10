-- ===== src/Concox/Devices/Located.antt =====
-- What `parseConcoxBuffer` makes of the location frame that a device builds.
use fueltracks.Prelude.{
  ℕ, ◌+◌, ◌*◌, ◌/◌, ◌^◌, ◌≤◌, ◌<◌, ◌≡◌, refl, ◌∙◌, true, false, Bool-cases, inl, inr, Option, some,
  [], ◌∷◌, ◌++◌, min, ltb, if◌then◌else◌, arith,
}
use fueltracks.Prelude.Bits.{bit_and_mask}
use fueltracks.Prelude.Int.{nat_abs, pos_part, neg_part}
use fueltracks.Js.Buffer.{Bytes, ok, read_u16_be, read_u32_be}
use fueltracks.Js.Text.{Text, upper_hex}
use fueltracks.Concox.Fields.{iso_date, coordinate, parse_date_time, parse_gps_block}
use fueltracks.Concox.Fields.Gps.{raw_coordinate, coordinate-raw_coordinate}
use fueltracks.Concox.Packets.{framed, location, Location, valid}
use fueltracks.Concox.Parsers.{parse_location, or_null, final_gps_valid, mileage, to_km}
use fueltracks.Concox.Frames.{put, dispatch, packets_of, parse_concox_buffer}
use fueltracks.Concox.Acks.{low}
use fueltracks.Concox.Frames.RoundTrip.{parse-build_concox_frame}
use fueltracks.Concox.Devices.Received.{next_serial-lt}
use fueltracks.Concox.Devices.{
  Device, Now, next_serial, send, date_bytes, location_content, make_concox_location,
}

u32_bytes-read :
    (n : ℕ)
    → n < 2 ^ 32
    → low (n / 2 ^ 24) * 2 ^ 24 + low (n / 2 ^ 16) * 2 ^ 16 + low (n / 2 ^ 8) * 2 ^ 8 + low n ≡ n
u32_bytes-read n h = omega (
  arith,
  bit_and_mask 8 (n / 2 ^ 24),
  bit_and_mask 8 (n / 2 ^ 16),
  bit_and_mask 8 (n / 2 ^ 8),
  bit_and_mask 8 n,
)

raw_coordinate-lt : (v : ℕ) → v ≤ 1800000000 → raw_coordinate v < 2 ^ 32
unfolding raw_coordinate
raw_coordinate-lt v h = omega arith

-- the location that the frame is read as
abbrev pub location_of : (Text → Option ℕ) → Option Text → Now → Device → ℕ → Location
location_of date_parse known now d serial = record {
  imei = or_null known;
  device_time = parse_date_time date_parse (date_bytes now) 0;
  lat = coordinate (raw_coordinate (nat_abs d.lat)) false;
  lng = coordinate (raw_coordinate (nat_abs d.lng)) false;
  speed = min 255 d.speed;
  direction = 180;
  satellites = if ltb 0 d.speed then 12 else 8;
  gps_valid = valid;
  raw_course = 0x50b4;
  ignition = d.ignition;
  is_live = true;
  odometer = some (if ltb 0 d.speed then 5000 else 1000);
  fuel = 0;
  voltage = 0;
  battery = 50;
  gsm_signal = 0;
  serial_number = serial;
  raw_packet_type = 0x22;
  cell = record { mcc = 404; mnc = 98; lac = 43690; cell_id = 12303291 };
  data_upload_mode = 0;
  re_upload_flag = 0;
}

location-content :
    (date_parse : Text → Option ℕ) (known : Option Text) (now : Now) (d : Device) (serial : ℕ)
    → nat_abs d.lat ≤ 1800000000
    → nat_abs d.lng ≤ 1800000000
    → parse_location date_parse (location_content now d) serial known 0x22
      ≡ ok (location_of date_parse known now d serial)
unfolding parse_location parse_gps_block parse_date_time iso_date read_u32_be read_u16_be
    final_gps_valid mileage to_km
location-content date_parse known now d serial lat_fits lng_fits =
    let lat : ℕ = raw_coordinate (nat_abs d.lat) in
    let lng : ℕ = raw_coordinate (nat_abs d.lng) in
    let lat_read = u32_bytes-read lat (raw_coordinate-lt (nat_abs d.lat) lat_fits) in
    let lng_read = u32_bytes-read lng (raw_coordinate-lt (nat_abs d.lng) lng_fits) in
    elim (Bool-cases (ltb 0 d.speed)) [
      | inl moves ↦ elim (Bool-cases d.ignition) [
        | inl on ↦ rw (lat_read, lng_read, moves, on) refl
        | inr off ↦ rw (lat_read, lng_read, moves, off) refl
      ]
      | inr stands ↦ elim (Bool-cases d.ignition) [
        | inl on ↦ rw (lat_read, lng_read, stands, on) refl
        | inr off ↦ rw (lat_read, lng_read, stands, off) refl
      ]
    ]

-- The location frame of a device is read as a location that bears the IMEI of the session, the serial
-- number that the device goes on to, the coordinates of the device without their sign, each within
-- three units (3e-7 degrees), its speed up to 255, its ignition, a fix and a heading of 180 degrees, as
-- a live position of that moment; the bytes behind it are parsed as they would be alone.
pub make_concox_location-received :
    (date_parse : Text → Option ℕ) (known : Option Text) (now : Now) (d : Device) (after : Bytes)
    → nat_abs d.lat ≤ 1800000000
    → nat_abs d.lng ≤ 1800000000
    → let (bytes, d') = make_concox_location now d in
      (l : Location) × (parse_concox_buffer date_parse known (bytes ++ after)
        ≡ put
            (framed (location l) (upper_hex bytes) ∷ [])
            (parse_concox_buffer date_parse known after))
      × (l.imei ≡ or_null known)
      × (l.serial_number ≡ d'.serial)
      × ((pos_part l.lat ≤ nat_abs d.lat + 3) × (nat_abs d.lat ≤ pos_part l.lat + 3))
      × ((pos_part l.lng ≤ nat_abs d.lng + 3) × (nat_abs d.lng ≤ pos_part l.lng + 3))
      × ((neg_part l.lat ≡ 0) × (neg_part l.lng ≡ 0))
      × (l.speed ≡ min 255 d.speed)
      × (l.ignition ≡ d.ignition)
      × (l.gps_valid ≡ valid)
      × (l.direction ≡ 180)
      × (l.is_live ≡ true)
      × (l.device_time ≡ parse_date_time date_parse (date_bytes now) 0)
unfolding make_concox_location send dispatch packets_of coordinate
make_concox_location-received date_parse known now d after lat_fits lng_fits =
    let serial : ℕ = next_serial d in
    let lat = coordinate-raw_coordinate (nat_abs d.lat) false in
    let lng = coordinate-raw_coordinate (nat_abs d.lng) false in
    (
      location_of date_parse known now d serial,
      parse-build_concox_frame 0x22 (location_content now d) serial (omega arith) date_parse known
            after (next_serial-lt d)
          ∙ rw (location-content date_parse known now d serial lat_fits lng_fits) refl,
      refl,
      refl,
      (omega (arith, lat.0), omega (arith, lat.1)),
      (omega (arith, lng.0), omega (arith, lng.1)),
      (refl, refl),
      refl,
      refl,
      refl,
      refl,
      refl,
      refl,
    )
