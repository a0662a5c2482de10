-- ===== src/Concox/Devices.antt =====
-- The Concox devices of scripts/deviceSimulator.js: the frames that they build and the trip that they
-- go through. Coordinates are in units of 1e-7 degrees, to which `nudge` rounds them.
pub mod Received
pub mod Located
pub mod Trip
use fueltracks.Prelude.{
  ℕ, ◌+◌, ◌-◌, ◌*◌, ◌/◌, ◌^◌, Bool, true, false, Option, none, some, List, [], ◌∷◌, ◌++◌, bit_and,
  bit_or, min, ltb, leb, ◌==◌, if◌then◌else◌,
}
use fueltracks.Prelude.Int.{ℤ, nat_abs}
use fueltracks.Js.Buffer.{Bytes}
use fueltracks.Js.Text.{Text}
use fueltracks.Concox.Fields.Imei.{pack_imei}
use fueltracks.Concox.Fields.Gps.{raw_coordinate}
use fueltracks.Concox.Acks.{low, build_concox_frame}

-- `stage` is `none` for a device that has no such field: it only moves.
pub record Device : Type 0 where
  pub imei : Text
  pub lat : ℤ
  pub lng : ℤ
  pub speed : ℕ
  pub ignition : Bool
  pub serial : ℕ
  pub stage : Option ℕ
  pub stage_ctr : ℕ

-- the UTC fields of `new Date()`, the month from 1
pub record Now : Type 0 where
  pub year : ℕ
  pub month : ℕ
  pub day : ℕ
  pub hours : ℕ
  pub minutes : ℕ
  pub seconds : ℕ

-- `(device.serial + 1) & 0xFFFF`
unfoldable pub next_serial : Device → ℕ
next_serial device = bit_and (device.serial + 1) 0xffff

-- `device.serial = …; return buildConcoxFrame(…, device.serial)`
unfoldable pub send : ℕ → Bytes → Device → Bytes × Device
send protocol content device =
    let serial = next_serial device in
    (build_concox_frame protocol content serial, record device { serial = serial })

abbrev pub login_content : Device → Bytes
login_content device = pack_imei device.imei ++ (0x00 ∷ 0x05 ∷ 0x00 ∷ 0x00 ∷ [])

unfoldable pub make_concox_login : Device → Bytes × Device
make_concox_login device = send 0x01 (login_content device) device

abbrev pub heartbeat_content : Device → Bytes
heartbeat_content device = (if device.ignition then 0x0a else 0x02) ∷ 0x05 ∷ 0x03 ∷ 0x00 ∷ 0x00 ∷ []

unfoldable pub make_concox_heartbeat : Device → Bytes × Device
make_concox_heartbeat device = send 0x13 (heartbeat_content device) device

-- `Buffer.alloc(4)`, `writeUInt32BE(n)` of an `n` below 2 ^ 32
abbrev pub u32_bytes : ℕ → Bytes
u32_bytes n = low (n / 2 ^ 24) ∷ low (n / 2 ^ 16) ∷ low (n / 2 ^ 8) ∷ low n ∷ []

-- `Buffer.from` cuts each element to eight bits.
abbrev pub date_bytes : Now → Bytes
date_bytes now =
    low (now.year - 2000)
    ∷ low now.month
    ∷ low now.day
    ∷ low now.hours
    ∷ low now.minutes
    ∷ low now.seconds
    ∷ []

abbrev pub location_content : Now → Device → Bytes
location_content now device =
    let sat_count : ℕ = if ltb 0 device.speed then 12 else 8 in
    let odometer : ℕ = if ltb 0 device.speed then 5000000 else 1000000 in
    date_bytes now
    ++ bit_or (12 * 2 ^ 4) (bit_and sat_count 0x0f)
      ∷ u32_bytes (raw_coordinate (nat_abs device.lat))
    ++ u32_bytes (raw_coordinate (nat_abs device.lng))
    ++ min 255 device.speed
      ∷ bit_or 0x50 (bit_and (180 / 2 ^ 8) 0x03)
      ∷ bit_and 180 0xff
      ∷ 0x01
      ∷ 0x94
      ∷ 0x62
      ∷ 0xaa
      ∷ 0xaa
      ∷ 0xbb
      ∷ 0xbb
      ∷ 0xbb
      ∷ (if device.ignition then 0x01 else 0x00)
      ∷ 0x00
      ∷ 0x00
      ∷ u32_bytes odometer

unfoldable pub make_concox_location : Now → Device → Bytes × Device
make_concox_location now device = send 0x22 (location_content now device) device

abbrev pub alarm_content : Now → Device → ℕ → Bytes
alarm_content now device alarm_code =
    date_bytes now
    ++ 0xc4 ∷ u32_bytes (raw_coordinate (nat_abs device.lat))
    ++ u32_bytes (raw_coordinate (nat_abs device.lng))
    ++ min 255 device.speed
      ∷ 0x50
      ∷ 0xb4
      ∷ 0x08
      ∷ 0x01
      ∷ 0x94
      ∷ 0x62
      ∷ 0xaa
      ∷ 0xaa
      ∷ 0xbb
      ∷ 0xbb
      ∷ 0xbb
      ∷ 0x08
      ∷ 0x05
      ∷ 0x03
      ∷ low alarm_code
      ∷ 0x00
      ∷ u32_bytes 5000000

unfoldable pub make_concox_alarm : Now → Device → ℕ → Bytes × Device
make_concox_alarm now device alarm_code = send 0x26 (alarm_content now device alarm_code) device

-- `d.stage = stage; d.stageCtr = 0` once the counter has reached the limit
abbrev advance : ℕ → ℕ → Device → Device
advance limit stage d =
    if leb limit d.stage_ctr then record d { stage = some stage; stage_ctr = 0 } else d

-- one stage of the trip: ignition, speed, whether the device moves, the limit and the next stage
abbrev in_stage : Bool → ℕ → Bool → ℤ × ℤ → ℕ → ℕ → Device → Device
in_stage ignition speed moves nudged limit next d =
    let driven = record d { ignition = ignition; speed = speed } in
    advance limit next (if moves then record driven { lat = nudged.0; lng = nudged.1 } else driven)

-- `nudged` is what `nudge` makes of the two coordinates: they are random.
unfoldable pub update_concox_state : ℤ × ℤ → Device → Device
update_concox_state nudged d = elim d.stage [
  | none ↦ if ltb 0 d.speed then record d { lat = nudged.0; lng = nudged.1 } else d
  | some stage ↦
      let counted = record d { stage_ctr = d.stage_ctr + 1 } in
      if stage == 0
      then in_stage false 0 false nudged 2 1 counted
      else if stage == 1
      then in_stage true 0 false nudged 3 2 counted
      else if stage == 2
      then in_stage true 45 true nudged 3 3 counted
      else if stage == 3
      then in_stage true 90 true nudged 2 4 counted
      else if stage == 4
      then in_stage false 0 false nudged 2 0 counted
      else counted
]
