-- ===== src/Tests/Fields.antt =====
-- The field decoders and the sub-parsers at concrete contents.
use fueltracks.Prelude.{
  ◌≡◌, refl, false, none, some, List, [], ◌∷◌, ◌++◌, map, All, length, ltb, ◌==◌, if◌then◌else◌,
  arith,
}
use fueltracks.Js.Buffer.{Bytes, IsByte, slice, too_short, invalid_imei, type_error}
use fueltracks.Js.Text.{codes}
use fueltracks.Concox.Fields.{decode_imei, is_imei}
use fueltracks.Concox.Parsers.{parse_login, parse_heartbeat, parse_location, parse_alarm}
use fueltracks.Concox.Parsers.Lengths.{thrown, parsers-thrown}
use fueltracks.Concox.Parsers.Info.{info_entries}
use fueltracks.Concox.Parsers.Info.Blocks.{
  Block, voltage_block, iccid_block, encode, entry, sensor_bytes, sensor_entries,
  info_entries-encode,
}
use fueltracks.Tests.{no_date}

abbrev location_info : Bytes
location_info =
    26 ∷ 1 ∷ 1 ∷ 0 ∷ 0 ∷ 5 ∷ 0xc8 ∷ 0x01 ∷ 0xdc ∷ 0x6f ∷ 0x00 ∷ 0x08 ∷ 0x6c ∷ 0xd0 ∷ 0x00 ∷ 45
    ∷ 0x10 ∷ 0xb4 ∷ []

location_info-bytes : All IsByte location_info
location_info-bytes = (
  omega arith,
  (
    omega arith,
    (
      omega arith,
      (
        omega arith,
        (
          omega arith,
          (
            omega arith,
            (
              omega arith,
              (
                omega arith,
                (
                  omega arith,
                  (
                    omega arith,
                    (
                      omega arith,
                      (
                        omega arith,
                        (
                          omega arith,
                          (
                            omega arith,
                            (omega arith, (omega arith, (omega arith, (omega arith, tt)))),
                          ),
                        ),
                      ),
                    ),
                  ),
                ),
              ),
            ),
          ),
        ),
      ),
    ),
  ),
)

parsers-thrown_example :
    (thrown (parse_login location_info 1) ≡ (
      if ltb (length location_info) 12
      then some too_short
      else if is_imei (decode_imei (slice 0 8 location_info))
      then none
      else some invalid_imei))
    × (thrown (parse_heartbeat location_info 1 none 0x23) ≡ (
        if ltb (length location_info) (if 0x23 == 0x23 then 4 else 5)
        then some too_short
        else none))
    × (thrown (parse_location no_date location_info 1 none 0x23)
        ≡ (if ltb (length location_info) 29 then some too_short else none))
    × (thrown (parse_alarm no_date location_info 1 none false 0x23) ≡ (
        if ltb (length location_info) 26
        then some too_short
        else if ltb (length location_info) 31
        then some type_error
        else none))
parsers-thrown_example = parsers-thrown no_date location_info 1 none false 0x23

abbrev some_blocks : List Block
some_blocks = voltage_block 1245 ∷ iccid_block (1 ∷ 2 ∷ 3 ∷ 4 ∷ 5 ∷ 6 ∷ 7 ∷ 8 ∷ 9 ∷ 10 ∷ []) ∷ []

info_entries-encode_example :
    info_entries (encode some_blocks ++ sensor_bytes (some (codes "!AIOIL,1,50.5,20,0")))
    ≡ map entry some_blocks ++ sensor_entries (some (codes "!AIOIL,1,50.5,20,0"))
info_entries-encode_example =
    info_entries-encode some_blocks (some (codes "!AIOIL,1,50.5,20,0")) (omega arith, (refl, tt))
