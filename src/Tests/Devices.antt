-- ===== src/Tests/Devices.antt =====
-- The devices of the simulator, and what the parser makes of their frames.
use fueltracks.Prelude.{◌+◌, ◌≤◌, ◌≡◌, refl, true, none, some, [], ◌∷◌, ◌++◌, min, arith}
use fueltracks.Prelude.Int.{nat_abs, pos_part, neg_part}
use fueltracks.Js.Text.{upper_hex}
use fueltracks.Concox.Fields.{all_digits, parse_date_time}
use fueltracks.Concox.Packets.{Location, login, location, framed, valid}
use fueltracks.Concox.Parsers.{or_null}
use fueltracks.Concox.Frames.{put, parse_concox_buffer}
use fueltracks.Concox.Devices.{date_bytes, make_concox_login, make_concox_location}
use fueltracks.Concox.Devices.Received.{make_concox_login-received}
use fueltracks.Concox.Devices.Located.{make_concox_location-received}
use fueltracks.Tests.{no_date, some_imei, hyderabad, new_year}

make_concox_login-received_example :
    let (bytes, d') = make_concox_login hyderabad in
    parse_concox_buffer no_date none (bytes ++ [])
    ≡ put
        (framed
            (login (record {
              imei = hyderabad.imei;
              model_code = 5;
              tz_lang = 0;
              serial_number = d'.serial;
              raw_packet_type = 0x01;
            }))
            (upper_hex bytes)
          ∷ [])
        (parse_concox_buffer no_date none [])
unfolding all_digits
make_concox_login-received_example = make_concox_login-received no_date none hyderabad [] refl refl

make_concox_location-received_example :
    let (bytes, d') = make_concox_location new_year hyderabad in
    (l : Location) × (parse_concox_buffer no_date (some some_imei) (bytes ++ [])
      ≡ put
          (framed (location l) (upper_hex bytes) ∷ [])
          (parse_concox_buffer no_date (some some_imei) []))
    × (l.imei ≡ or_null (some some_imei))
    × (l.serial_number ≡ d'.serial)
    × ((pos_part l.lat ≤ nat_abs hyderabad.lat + 3) × (nat_abs hyderabad.lat ≤ pos_part l.lat + 3))
    × ((pos_part l.lng ≤ nat_abs hyderabad.lng + 3) × (nat_abs hyderabad.lng ≤ pos_part l.lng + 3))
    × ((neg_part l.lat ≡ 0) × (neg_part l.lng ≡ 0))
    × (l.speed ≡ min 255 hyderabad.speed)
    × (l.ignition ≡ hyderabad.ignition)
    × (l.gps_valid ≡ valid)
    × (l.direction ≡ 180)
    × (l.is_live ≡ true)
    × (l.device_time ≡ parse_date_time no_date (date_bytes new_year) 0)
make_concox_location-received_example =
    make_concox_location-received no_date (some some_imei) new_year hyderabad [] (omega arith)
      (omega arith)
