-- ===== src/Concox/Parsers/Info/Blocks.antt =====
-- The blocks of an information transmission, written and read back.
use fueltracks.Prelude.{
  ℕ, zero, suc, ◌+◌, ◌/◌, ◌%◌, ◌^◌, ◌≤◌, ◌<◌, ◌≡◌, refl, ap, Option, none, some, List, [], ◌∷◌,
  ◌++◌, map, append_assoc, All, length, length-append, take-append, drop-append, ltb-false, arith,
}
use fueltracks.Js.Buffer.{Bytes}
use fueltracks.Concox.Fields.{hex}
use fueltracks.Concox.Packets.{InfoEntry, external_voltage, iccid_entry, fuel_sensor}
use fueltracks.Concox.Parsers.Info.{ascii, fuel_reading, info_loop, info_entries}

pub data Block : Type 0 where
  voltage_block : ℕ → Block
  iccid_block : Bytes → Block

abbrev pub IsBlock : Block → Type 0
IsBlock (voltage_block v) = v < 2 ^ 16
IsBlock (iccid_block digits) = length digits ≡ 10

abbrev pub block_bytes : Block → Bytes
block_bytes (voltage_block v) = 0x00 ∷ v / 256 ∷ v % 256 ∷ []
block_bytes (iccid_block digits) = 0x0a ∷ digits

abbrev pub entry : Block → InfoEntry
entry (voltage_block v) = external_voltage v
entry (iccid_block digits) = iccid_entry (hex digits)

unfoldable pub encode : List Block → Bytes
encode [] = []
encode (b ∷ bs) = block_bytes b ++ encode bs

-- what stands behind the blocks: nothing, or the reading of the fuel sensor
abbrev pub sensor_bytes : Option Bytes → Bytes
sensor_bytes none = []
sensor_bytes (some raw) = 0x0d ∷ raw

abbrev pub sensor_entries : Option Bytes → List InfoEntry
sensor_entries none = []
sensor_entries (some raw) = fuel_sensor (ascii raw) (fuel_reading (ascii raw)) ∷ []

loop-encode :
    (fuel : ℕ) (bs : List Block) (sensor : Option Bytes)
    → All IsBlock bs
    → length (encode bs ++ sensor_bytes sensor) ≤ fuel
    → info_loop fuel (encode bs ++ sensor_bytes sensor) ≡ map entry bs ++ sensor_entries sensor
unfolding info_loop encode
loop-encode zero [] none ok h = refl
loop-encode zero [] (some raw) ok h = absurd (omega (arith, h))
loop-encode (suc fuel) [] none ok h = refl
loop-encode (suc fuel) [] (some raw) ok h = refl
loop-encode zero (voltage_block v ∷ bs) sensor ok h = absurd (omega (arith, h))
loop-encode zero (iccid_block digits ∷ bs) sensor ok h = absurd (omega (arith, h))
loop-encode (suc fuel) (voltage_block v ∷ bs) sensor (word, oks) h =
    let rest = encode bs ++ sensor_bytes sensor in
    rw
      (
        ltb-false (suc (suc (length rest))) 2 (omega arith),
        loop-encode fuel bs sensor oks (omega (arith, h)),
      )
      (ap (λ t. external_voltage t ∷ (map entry bs ++ sensor_entries sensor)) (omega arith))
loop-encode (suc fuel) (iccid_block digits ∷ bs) sensor (ten, oks) h =
    let rest = encode bs ++ sensor_bytes sensor in
    let joined : (digits ++ encode bs) ++ sensor_bytes sensor ≡ digits ++ rest =
      append_assoc digits (encode bs) (sensor_bytes sensor) in
    let size : length (digits ++ rest) ≡ 10 + length rest =
      omega (arith, length-append digits rest, ten) in
    rw
      (
        joined,
        ltb-false (length (digits ++ rest)) 10 (omega (arith, size)),
        take-append 10 digits rest ten,
        drop-append 10 digits rest ten,
        loop-encode fuel bs sensor oks (omega (arith, h, ap length joined, size)),
      )
      refl

-- Any sequence of voltage blocks (16 bits) and ICCID blocks (ten bytes), with the fuel sensor's text
-- behind it or without, is read as exactly these entries, in their order.
pub info_entries-encode :
    (bs : List Block) (sensor : Option Bytes)
    → All IsBlock bs
    → info_entries (encode bs ++ sensor_bytes sensor) ≡ map entry bs ++ sensor_entries sensor
unfolding info_entries
info_entries-encode bs sensor ok =
    loop-encode (length (encode bs ++ sensor_bytes sensor)) bs sensor ok (omega arith)
