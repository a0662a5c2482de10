-- ===== src/Server/Session/Process.antt =====
-- What the handlers and the socket events of the Concox port do.
use fueltracks.Prelude.{
  ℕ, ◌+◌, ◌-◌, Bool, true, false, ◌&&◌, not, Option, none, some, List, [], ◌∷◌, ◌++◌, length, ltb,
  leb, if◌then◌else◌,
}
use fueltracks.Js.Buffer.{Bytes}
use fueltracks.Js.Text.{Text}
use fueltracks.Js.Map
use fueltracks.Js.Map.{Map}
use fueltracks.Concox.Packets.{
  login, heartbeat, location, alarm, info, time_check, command_response, online_command, Alarm,
  Packet, framed, ascii_message,
}
use fueltracks.Concox.Parsers.{or_null}
use fueltracks.Concox.Acks.{build_login_ack, build_heartbeat_ack, build_alarm_ack}
use fueltracks.Concox.Frames.{parse_concox_buffer}
use fueltracks.Server.Session.{
  Connected, Server, Effect, wrote, published_location, published_alert, Phase, idle, published_raw,
  alarmed, located, Handler, Progress, packet_imei, or_else, raw_effect, rejected, passed, accepted,
  out_of_range, is_fixed, location_position, alarm_position, alarm_alert,
}

-- `connectedDevices.set(…)`
abbrev pub connect : Text → Connected → Server → Server
connect imei entry v = record v { connected_devices = Map.set v.connected_devices imei entry }

-- a step to the next packet
abbrev pub done : List Packet → Option Text → Server → List Effect → Progress
done queue session_imei v effects = record {
  phase = idle;
  queue = queue;
  session_imei = session_imei;
  server = v;
  effects = effects;
}

-- a step to an `await`
abbrev pub waits : Phase → List Packet → Option Text → Server → List Effect → Progress
waits phase queue session_imei v effects = record {
  phase = phase;
  queue = queue;
  session_imei = session_imei;
  server = v;
  effects = effects;
}

-- The `switch` of `processConcoxPacket`, up to its next `await`. An empty IMEI is falsy, as `null` is.
unfoldable pub process_concox_packet :
    Text → ℕ → Packet → List Packet → Option Text → Server → Progress
process_concox_packet client_id now (framed (login p) raw) queue session v =
    let entry : Connected = record { client_id = client_id; last_packet = now; position = none } in
    done queue (or_null (some p.imei)) (accepted now (connect p.imei entry v))
      (wrote (build_login_ack p.serial_number) ∷ [])
process_concox_packet client_id now (framed (heartbeat p) raw) queue session v =
    done queue session (accepted now v)
      (wrote (build_heartbeat_ack p.serial_number p.raw_packet_type) ∷ [])
process_concox_packet client_id now (framed (location p) raw) queue none v =
    done queue none (rejected v) []
process_concox_packet client_id now (framed (location p) raw) queue (some imei) v =
    if not (is_fixed p.gps_valid)
    then done queue (some imei) (rejected v) []
    else if out_of_range p.lat p.lng
    then done queue (some imei) (rejected v) []
    else (let entry : Connected = record {
      client_id = client_id;
      last_packet = now;
      position = some (p.lat, p.lng);
    } in
        waits located queue (some imei) (connect imei entry v)
          (published_location (location_position (some imei) p) ∷ []))
process_concox_packet client_id now (framed (alarm p) raw) queue none v =
    done queue none (rejected v) []
process_concox_packet client_id now (framed (alarm p) raw) queue (some imei) v =
    waits (alarmed p) queue (some imei) v (
      wrote (build_alarm_ack p.raw_packet_type p.serial_number)
      ∷ published_alert (alarm_alert (some imei) p)
      ∷ [])
process_concox_packet client_id now (framed (info p) raw) queue session v =
    done queue session (accepted now v) []
process_concox_packet client_id now (framed (time_check p) raw) queue session v =
    done queue session (accepted now v) []
process_concox_packet client_id now (framed (command_response p) raw) queue session v =
    done queue session (passed now v) []
process_concox_packet client_id now (framed (online_command p) raw) queue session v =
    done queue session (passed now v) []
process_concox_packet client_id now (ascii_message s) queue session v =
    done queue session (passed now v) []

-- behind the `await` of `publishAlert`
unfoldable pub process_alarm_position : ℕ → Alarm → List Packet → Option Text → Server → Progress
process_alarm_position now p queue session v =
    if is_fixed p.gps_valid && not (out_of_range p.lat p.lng)
    then waits located queue session v (published_location (alarm_position session p) ∷ [])
    else done queue session (accepted now v) []

-- One step of a handler: up to the next `await`, or to the next packet. `resolved` says how the
-- `await` ended at which it stands: a rejection of `publishRawMessage` is caught on the spot, any
-- other makes the packet invalid.
unfoldable pub advance : Text → ℕ → Bool → Handler → Option Text → Server → Progress
advance client_id now resolved h session v = elim h.phase [
  | idle ↦ elim h.queue [
    | [] ↦ done [] session v []
    | packet ∷ queue ↦
        waits (published_raw packet) queue session
          (record v { total_packets_received = v.total_packets_received + 1 })
          (raw_effect (or_else (packet_imei packet) session) packet)
  ]
  | published_raw packet ↦ process_concox_packet client_id now packet h.queue session v
  | alarmed p ↦
      if resolved
      then process_alarm_position now p h.queue session v
      else done h.queue session (rejected v) []
  | located ↦
      if resolved
      then done h.queue session (accepted now v) []
      else done h.queue session (rejected v) []
]

-- A socket and its handlers. `pending` is `__pendingPublishes`, `paused` is `__pausedByBackpressure`.
pub record Socket : Type 0 where
  pub client_id : Text
  pub buffer : Bytes
  pub session_imei : Option Text
  pub pending : ℕ
  pub paused : Bool
  pub handlers : List Handler

-- the connection handler
abbrev pub on_connection : Server → Server
on_connection v = record v {
  total_connection_attempts = v.total_connection_attempts + 1;
  connections = v.connections + 1;
}

abbrev pub new_socket : Text → Socket
new_socket client_id = record {
  client_id = client_id;
  buffer = [];
  session_imei = none;
  pending = 0;
  paused = false;
  handlers = [];
}

-- The `data` handler up to its loop over the packets. The packets are taken by `advance`, whose bracket
-- of `__track` and `__release` has no effect: no socket has these methods.
unfoldable pub on_data : (Text → Option ℕ) → ℕ → Bytes → Socket → Server → Socket × Server
on_data date_parse high_water chunk s v =
    let stops = not s.paused && leb high_water s.pending in
    let s1 : Socket = if stops then record s { paused = true } else s in
    let v1 : Server =
      if stops then record v { backpressure_pauses = v.backpressure_pauses + 1 } else v in
    let buffer = s1.buffer ++ chunk in
    let result = parse_concox_buffer date_parse s1.session_imei buffer in
    if s1.paused
    then (s1, v1)
    else if ltb 10240 (length buffer)
    then (record s1 { buffer = [] }, v1)
    else (
      record s1 {
        buffer = result.remainder;
        handlers = s1.handlers ++ record { phase = idle; queue = result.packets } ∷ [];
      },
      v1,
    )

-- the `close` handler; the handlers that are under way go on
unfoldable pub on_close : Socket → Server → Server
on_close s v =
    let left = record v { connections = v.connections - 1 } in
    elim s.session_imei [
      | none ↦ left
      | some imei ↦ record left { connected_devices = Map.delete left.connected_devices imei }
    ]
