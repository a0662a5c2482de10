-- ===== src/Concox/Packets.antt =====
-- The objects that the sub-parsers of tcp-server/parser/concoxParser.js return. An object's
-- `packetType` is its constructor in `Body`; `imei: imei || null` is an `Option`.
use fueltracks.Prelude.{ℕ, Bool, Option, List}
use fueltracks.Prelude.Int.{ℤ}
use fueltracks.Js.Text.{Text}
use fueltracks.Js.Numbers.{Number}
use fueltracks.Concox.Fields.{DeviceTime, TerminalInfo}
use fueltracks.Concox.Tables.{AlertType}

pub record Login : Type 0 where
  pub imei : Text
  pub model_code : ℕ
  pub tz_lang : ℕ
  pub serial_number : ℕ
  pub raw_packet_type : ℕ

pub record Heartbeat : Type 0 where
  pub imei : Option Text
  pub terminal_info : TerminalInfo
  pub ignition : Bool
  pub batt_percent : ℕ
  pub gsm_strength : ℕ
  pub lang_status : ℕ
  pub serial_number : ℕ
  pub raw_packet_type : ℕ

-- `'A'` or `'V'`
pub data Validity : Type 0 where
  valid void : Validity

pub record Cell : Type 0 where
  pub mcc : ℕ
  pub mnc : ℕ
  pub lac : ℕ
  pub cell_id : ℕ

pub record Location : Type 0 where
  pub imei : Option Text
  pub device_time : DeviceTime
  pub lat : ℤ
  pub lng : ℤ
  pub speed : ℕ
  pub direction : ℕ
  pub satellites : ℕ
  pub gps_valid : Validity
  pub raw_course : ℕ
  pub ignition : Bool
  pub is_live : Bool
  pub odometer : Option ℕ
  pub fuel : ℕ
  pub voltage : ℕ
  pub battery : ℕ
  pub gsm_signal : ℕ
  pub serial_number : ℕ
  pub raw_packet_type : ℕ
  pub cell : Cell
  pub data_upload_mode : ℕ
  pub re_upload_flag : ℕ

-- `multi` tells `CONCOX_ALARM_MULTI` from `CONCOX_ALARM`.
pub record Alarm : Type 0 where
  pub multi : Bool
  pub imei : Option Text
  pub device_time : DeviceTime
  pub lat : ℤ
  pub lng : ℤ
  pub speed : ℕ
  pub direction : ℕ
  pub satellites : ℕ
  pub gps_valid : Validity
  pub ignition : Bool
  pub is_live : Bool
  pub odometer : Option ℕ
  pub fuel : ℕ
  pub voltage : ℕ
  pub battery : ℕ
  pub gsm_signal : ℕ
  pub alert_type : AlertType
  pub alert_text : Text
  pub alarm_code : ℕ
  pub fence_no : Option ℕ
  pub serial_number : ℕ
  pub raw_packet_type : ℕ
  pub cell : Cell
  pub lbs_length : ℕ
  pub term_info : TerminalInfo
  pub lang_byte : Option ℕ

pub record FuelReading : Type 0 where
  pub tank_id : Text
  pub level : Option Number
  pub temp : Option Number
  pub status : Text

-- The voltage is in units of 0.01 V, as on the wire.
pub data InfoEntry : Type 0 where
  external_voltage : ℕ → InfoEntry
  iccid_entry : Text → InfoEntry
  fuel_sensor : Text → Option FuelReading → InfoEntry

pub record InfoPacket : Type 0 where
  pub imei : Option Text
  pub serial_number : ℕ
  pub raw_packet_type : ℕ
  pub info_data : List InfoEntry
  pub voltage : Option ℕ
  pub iccid : Option Text
  pub sensor_data : Option (Text × Option FuelReading)

-- the packets with no content: time check, command response, online command
pub record Bare : Type 0 where
  pub imei : Option Text
  pub serial_number : ℕ
  pub raw_packet_type : ℕ

pub data Body : Type 0 where
  login : Login → Body
  heartbeat : Heartbeat → Body
  location : Location → Body
  alarm : Alarm → Body
  info : InfoPacket → Body
  time_check command_response online_command : Bare → Body

-- `framed` bears `rawPacket`, the frame in hexadecimal; `ascii_message` is `CONCOX_ASCII_MESSAGE`.
pub data Packet : Type 0 where
  framed : Body → Text → Packet
  ascii_message : Text → Packet
