-- ===== src/Server/Session.antt =====
-- The Concox port of tcp-server/server.js: `createConcoxServer` with its `processConcoxPacket`.
-- A `data` event starts a handler, which takes its packets one by one and stops at every `await`; the
-- handlers of a socket and of different sockets go on in any order. A `Phase` says where one stands.
pub mod Process
pub mod System
pub mod Accounts
pub mod Handlers
pub mod Publish
pub mod Backpressure
pub mod Replies
pub mod Stream
use fueltracks.Prelude.{
  ℕ, ◌+◌, ◌-◌, Bool, true, false, ◌&&◌, ◌||◌, not, Option, none, some, List, [], ◌∷◌, ◌++◌, length,
  ltb, leb, if◌then◌else◌,
}
use fueltracks.Prelude.Int.{ℤ, nat_abs}
use fueltracks.Js.Buffer.{Bytes}
use fueltracks.Js.Text.{Text}
use fueltracks.Js.Map
use fueltracks.Js.Map.{Map}
use fueltracks.Concox.Tables.{AlertType}
use fueltracks.Concox.Fields.{DeviceTime}
use fueltracks.Concox.Packets.{
  Validity, valid, void, Location, Alarm, Body, login, heartbeat, location, alarm, info, time_check,
  command_response, online_command, Packet, framed, ascii_message,
}
use fueltracks.Concox.Parsers.{or_null}
use fueltracks.Concox.Acks.{build_login_ack, build_heartbeat_ack, build_alarm_ack}
use fueltracks.Concox.Frames.{Parsed, parse_concox_buffer}

-- an entry of `connectedDevices`; `now` is the time of the clock
pub record Connected : Type 0 where
  pub client_id : Text
  pub last_packet : ℕ
  pub position : Option (ℤ × ℤ)

-- the module's counters, those of `protocolStats['CONCOX']` and the metrics
pub record Server : Type 0 where
  pub connected_devices : Map Connected
  pub total_packets_received : ℕ
  pub total_packets_parsed : ℕ
  pub total_packets_invalid : ℕ
  pub metric_packets_parsed : ℕ
  pub metric_packets_invalid : ℕ
  pub connections : ℕ
  pub total_connection_attempts : ℕ
  pub backpressure_pauses : ℕ
  pub last_successful_packet_at : Option ℕ

-- what is published as a location and as an alert; `imei` is the session's
pub record Position : Type 0 where
  pub imei : Option Text
  pub lat : ℤ
  pub lng : ℤ
  pub speed : ℕ
  pub fuel : ℕ
  pub ignition : Bool
  pub voltage : ℕ
  pub direction : ℕ
  pub odometer : ℕ
  pub satellites : ℕ
  pub gsm_signal : ℕ
  pub battery : ℕ
  pub device_time : DeviceTime
  pub is_live : Bool

pub record Alert : Type 0 where
  pub imei : Option Text
  pub alert_type : AlertType
  pub alert_text : Text
  pub lat : ℤ
  pub lng : ℤ
  pub device_time : DeviceTime

pub data Effect : Type 0 where
  wrote : Bytes → Effect
  raw_message : Text → Packet → Effect
  published_location : Position → Effect
  published_alert : Alert → Effect

-- Between two packets; at the `await` of `publishRawMessage` (or past it, where nothing is
-- published); at that of `publishAlert`; at that of `publishLocation`.
pub data Phase : Type 0 where
  idle : Phase
  published_raw : Packet → Phase
  alarmed : Alarm → Phase
  located : Phase

pub record Handler : Type 0 where
  pub phase : Phase
  pub queue : List Packet

-- what a step of a handler changes
pub record Progress : Type 0 where
  pub phase : Phase
  pub queue : List Packet
  pub session_imei : Option Text
  pub server : Server
  pub effects : List Effect

-- `packet.imei`, where it is neither missing, nor `null`, nor empty
unfoldable pub packet_imei : Packet → Option Text
packet_imei (ascii_message s) = none
packet_imei (framed (login p) raw) = or_null (some p.imei)
packet_imei (framed (heartbeat p) raw) = or_null p.imei
packet_imei (framed (location p) raw) = or_null p.imei
packet_imei (framed (alarm p) raw) = or_null p.imei
packet_imei (framed (info p) raw) = or_null p.imei
packet_imei (framed (time_check p) raw) = or_null p.imei
packet_imei (framed (command_response p) raw) = or_null p.imei
packet_imei (framed (online_command p) raw) = or_null p.imei

-- `a || b`
unfoldable pub or_else : Option Text → Option Text → Option Text
or_else none b = b
or_else (some a) b = some a

abbrev pub raw_effect : Option Text → Packet → List Effect
raw_effect none packet = []
raw_effect (some imei) packet = raw_message imei packet ∷ []

-- `metric_packets_invalid.inc(); totalPacketsInvalid++`
abbrev pub rejected : Server → Server
rejected v = record v {
  metric_packets_invalid = v.metric_packets_invalid + 1;
  total_packets_invalid = v.total_packets_invalid + 1;
}

-- `lastSuccessfulPacketAt = …; totalPacketsParsed++`, and the metric where the case counts it
abbrev pub passed : ℕ → Server → Server
passed now v = record v {
  last_successful_packet_at = some now;
  total_packets_parsed = v.total_packets_parsed + 1;
}

abbrev pub accepted : ℕ → Server → Server
accepted now v = record (passed now v) { metric_packets_parsed = v.metric_packets_parsed + 1 }

-- `Math.abs(lat) > 90 || Math.abs(lng) > 180`; the parser's coordinates are never `null`
abbrev pub out_of_range : ℤ → ℤ → Bool
out_of_range lat lng = ltb 900000000 (nat_abs lat) || ltb 1800000000 (nat_abs lng)

abbrev pub is_fixed : Validity → Bool
is_fixed valid = true
is_fixed void = false

-- `packet.odometer || 0`
abbrev or_zero : Option ℕ → ℕ
or_zero none = 0
or_zero (some n) = n

abbrev pub location_position : Option Text → Location → Position
location_position imei p = record {
  imei = imei;
  lat = p.lat;
  lng = p.lng;
  speed = p.speed;
  fuel = p.fuel;
  ignition = p.ignition;
  voltage = p.voltage;
  direction = p.direction;
  odometer = or_zero p.odometer;
  satellites = p.satellites;
  gsm_signal = p.gsm_signal;
  battery = p.battery;
  device_time = p.device_time;
  is_live = p.is_live;
}

abbrev pub alarm_position : Option Text → Alarm → Position
alarm_position imei p = record {
  imei = imei;
  lat = p.lat;
  lng = p.lng;
  speed = p.speed;
  fuel = p.fuel;
  ignition = p.ignition;
  voltage = p.voltage;
  direction = p.direction;
  odometer = or_zero p.odometer;
  satellites = p.satellites;
  gsm_signal = p.gsm_signal;
  battery = p.battery;
  device_time = p.device_time;
  is_live = p.is_live;
}

abbrev pub alarm_alert : Option Text → Alarm → Alert
alarm_alert imei p = record {
  imei = imei;
  alert_type = p.alert_type;
  alert_text = p.alert_text;
  lat = p.lat;
  lng = p.lng;
  device_time = p.device_time;
}
