-- ===== src/Concox/Tables.antt =====
-- The lookup tables of tcp-server/parser/concoxParser.js: alarm codes, battery and GSM levels.
use Prim.Native.String.{String}
use fueltracks.Prelude.{ℕ, Option, none, some, List, [], ◌∷◌, ◌==◌, if◌then◌else◌}
use fueltracks.Js.Text.{Text, codes}

pub data AlertType : Type 0 where
  normal sos power_cut shock geofence overspeed general tow battery box_open : AlertType
  harsh_driving ignition_on ignition_off : AlertType

pub record AlarmInfo : Type 0 where
  pub type : AlertType
  pub text : Text

abbrev info : AlertType → String → AlarmInfo
info type text = record { type = type; text = codes text }

-- `CONCOX_ALARM_MAP`, in the source's order
abbrev alarm_entries : List (ℕ × AlarmInfo)
alarm_entries =
    (0x00, info normal "Normal")
    ∷ (0x01, info sos "SOS Alarm")
    ∷ (0x02, info power_cut "Power Cut Alarm")
    ∷ (0x03, info shock "Shock/Vibration Alarm")
    ∷ (0x04, info geofence "Geofence Enter Alarm")
    ∷ (0x05, info geofence "Geofence Exit Alarm")
    ∷ (0x06, info overspeed "Overspeed Alarm")
    ∷ (0x07, info general "Idle Alarm")
    ∷ (0x08, info general "Fatigue Driving Alarm")
    ∷ (0x09, info tow "Displacement/Tow Alarm")
    ∷ (0x0a, info geofence "Entered GPS Dead Zone")
    ∷ (0x0b, info geofence "Exited GPS Dead Zone")
    ∷ (0x0c, info general "Arm/Disarm")
    ∷ (0x0d, info general "Fuel Level High Alarm")
    ∷ (0x0e, info battery "Low Battery Alarm")
    ∷ (0x0f, info battery "Low Battery Auto-Off")
    ∷ (0x10, info box_open "SIM Change Alarm")
    ∷ (0x11, info general "Power Off Alarm")
    ∷ (0x12, info general "Accident Alarm")
    ∷ (0x13, info general "Tow Alarm (Parking)")
    ∷ (0x14, info geofence "Geofence Alarm (Radius)")
    ∷ (0x15, info harsh_driving "Harsh Acceleration Alarm")
    ∷ (0x16, info harsh_driving "Harsh Braking Alarm")
    ∷ (0x17, info harsh_driving "Harsh Cornering Alarm")
    ∷ (0x18, info general "RFID Alarm")
    ∷ (0x19, info general "Temperature Alarm")
    ∷ (0x1a, info general "Rollover Alarm")
    ∷ (0x1b, info general "Rapid Lane Change Alarm")
    ∷ (0xfe, info ignition_on "Ignition On (ACC On)")
    ∷ (0xff, info ignition_off "Ignition Off (ACC Off)")
    ∷ []

-- `MAP[key]`; `none` is `undefined`.
unfoldable pub get {ℓ} : {A : Type ℓ} → ℕ → List (ℕ × A) → Option A
get key [] = none
get key ((k, a) ∷ entries) = let rest = get key entries in if key == k then some a else rest

unfoldable pub concox_alarm_map : ℕ → Option AlarmInfo
unfolding get
concox_alarm_map code = get code alarm_entries

unfoldable pub battery_level_map : ℕ → Option ℕ
unfolding get
battery_level_map level =
    get level (
      (0x00, 0) ∷ (0x01, 10) ∷ (0x02, 25) ∷ (0x03, 40) ∷ (0x04, 60) ∷ (0x05, 80) ∷ (0x06, 100) ∷ [])

unfoldable pub gsm_signal_map : ℕ → Option ℕ
unfolding get
gsm_signal_map level =
    get level ((0x00, 0) ∷ (0x01, 25) ∷ (0x02, 50) ∷ (0x03, 75) ∷ (0x04, 100) ∷ [])
