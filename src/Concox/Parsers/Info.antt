-- ===== src/Concox/Parsers/Info.antt =====
-- `parseInfoTransmission` of tcp-server/parser/concoxParser.js (protocol 0x94).
pub mod Blocks
use fueltracks.Prelude.{
  ℕ, zero, suc, ◌+◌, ◌*◌, ◌^◌, Option, none, some, List, [], ◌∷◌, ◌++◌, map, bit_and, length, take,
  drop, ltb, ◌==◌, if◌then◌else◌,
}
use fueltracks.Js.Buffer.{Bytes, byte}
use fueltracks.Js.Text.{Text, codes, starts_with}
use fueltracks.Js.Numbers.{float_or_null}
use fueltracks.Concox.Fields.{hex}
use fueltracks.Concox.Parsers.{or_null}
use fueltracks.Concox.Packets.{
  FuelReading, InfoEntry, external_voltage, iccid_entry, fuel_sensor, InfoPacket,
}

-- `buf.toString('ascii')` drops the high bit of each byte.
unfoldable pub ascii : Bytes → Text
ascii = map λ b. bit_and b 0x7f

-- the text behind the first `!AIOIL,`
after_tag : Text → Option Text
after_tag [] = none
after_tag (c ∷ s) =
    let rest = after_tag s in
    if starts_with (c ∷ s) (codes "!AIOIL,") then some (drop 7 (c ∷ s)) else rest

-- up to the next comma, and what is behind it, `none` where there is no comma
field : Text → Text × Option Text
field [] = ([], none)
field (c ∷ s) = let (f, rest) = field s in if c == b',' then ([], some s) else (c ∷ f, rest)

-- The expression `/!AIOIL,([^,]*),([^,]*),([^,]*),([^,]*)/` wants three commas behind the tag; where
-- the first tag has fewer, a later one has no more.
fuel_fields : Text → Option FuelReading
fuel_fields s =
    let (tank, r1) = field s in
    elim r1 [
      | none ↦ none
      | some s1 ↦
          let (level, r2) = field s1 in
          elim r2 [
            | none ↦ none
            | some s2 ↦
                let (temp, r3) = field s2 in
                elim r3 [
                  | none ↦ none
                  | some s3 ↦ some (record {
                    tank_id = tank;
                    level = float_or_null level;
                    temp = float_or_null temp;
                    status = (field s3).0;
                  })
                ]
          ]
    ]

unfoldable pub fuel_reading : Text → Option FuelReading
unfolding after_tag field fuel_fields starts_with
fuel_reading raw = elim (after_tag raw) [ none ↦ none | some s ↦ fuel_fields s ]

-- The `while` loop over the bytes from `pos` on. A round consumes its sub-type byte, so that fuel
-- equal to the number of bytes is enough.
info_loop : ℕ → Bytes → List InfoEntry
info_loop zero info = []
info_loop (suc fuel) [] = []
info_loop (suc fuel) (sub_type ∷ rest) =
    let voltage_first =
      external_voltage (byte rest 0 * 2 ^ 8 + byte rest 1) ∷ info_loop fuel (drop 2 rest) in
    let iccid_first = iccid_entry (hex (take 10 rest)) ∷ info_loop fuel (drop 10 rest) in
    if sub_type == 0x00
    then if ltb (length rest) 2 then [] else voltage_first
    else if sub_type == 0x0a
    then if ltb (length rest) 10 then [] else iccid_first
    else if sub_type == 0x0d
    then fuel_sensor (ascii rest) (fuel_reading (ascii rest)) ∷ []
    else []

-- `results.find(r => r.subType === …)`
find_voltage : List InfoEntry → Option ℕ
find_voltage [] = none
find_voltage (external_voltage v ∷ es) = some v
find_voltage (iccid_entry i ∷ es) = find_voltage es
find_voltage (fuel_sensor raw parsed ∷ es) = find_voltage es

find_iccid : List InfoEntry → Option Text
find_iccid [] = none
find_iccid (external_voltage v ∷ es) = find_iccid es
find_iccid (iccid_entry i ∷ es) = some i
find_iccid (fuel_sensor raw parsed ∷ es) = find_iccid es

find_fuel : List InfoEntry → Option (Text × Option FuelReading)
find_fuel [] = none
find_fuel (external_voltage v ∷ es) = find_fuel es
find_fuel (iccid_entry i ∷ es) = find_fuel es
find_fuel (fuel_sensor raw parsed ∷ es) = some (raw, parsed)

unfoldable pub info_entries : Bytes → List InfoEntry
unfolding info_loop
info_entries info = info_loop (length info) info

unfoldable pub parse_info_transmission : Bytes → ℕ → Option Text → InfoPacket
unfolding find_voltage find_iccid find_fuel or_null
parse_info_transmission info serial_number imei =
    let results = info_entries info in
    record {
      imei = or_null imei;
      serial_number = serial_number;
      raw_packet_type = 0x94;
      info_data = results;
      voltage = find_voltage results;
      iccid = find_iccid results;
      sensor_data = find_fuel results;
    }
