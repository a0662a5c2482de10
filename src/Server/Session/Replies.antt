-- ===== src/Server/Session/Replies.antt =====
-- What the Concox port writes back.
use fueltracks.Prelude.{
  ℕ, ◌≡◌, refl, ◌∙◌, Bool, true, false, not, ◌&&◌, Bool-cases, inl, inr, Option, none, some, List,
  [], ◌∷◌, ◌++◌, append-nil,
}
use fueltracks.Js.Buffer.{Bytes}
use fueltracks.Js.Text.{Text}
use fueltracks.Concox.Packets.{
  login, heartbeat, location, alarm, info, time_check, command_response, online_command, Alarm,
  Packet, framed, ascii_message,
}
use fueltracks.Concox.Acks.{
  build_concox_frame, build_login_ack, build_heartbeat_ack, build_alarm_ack,
}
use fueltracks.Concox.Acks.Frames.{acks-build_concox_frame}
use fueltracks.Server.Session.{
  Server, Effect, wrote, raw_message, published_location, published_alert, Phase, Handler, idle,
  published_raw, alarmed, located, is_fixed, out_of_range, packet_imei, or_else, raw_effect,
}
use fueltracks.Server.Session.Process.{advance, process_concox_packet, process_alarm_position}

-- the bytes that go to the socket
abbrev pub written : List Effect → Bytes
written [] = []
written (wrote bytes ∷ es) = bytes ++ written es
written (raw_message imei p ∷ es) = written es
written (published_location x ∷ es) = written es
written (published_alert a ∷ es) = written es

-- the reply that a packet is to have: an empty frame with its protocol number and its serial number
abbrev pub reply : Option Text → Packet → Bytes
reply session (framed (login p) raw) = build_concox_frame 0x01 [] p.serial_number
reply session (framed (heartbeat p) raw) = build_concox_frame p.raw_packet_type [] p.serial_number
reply none (framed (alarm p) raw) = []
reply (some imei) (framed (alarm p) raw) = build_concox_frame p.raw_packet_type [] p.serial_number
reply session (framed (location p) raw) = []
reply session (framed (info p) raw) = []
reply session (framed (time_check p) raw) = []
reply session (framed (command_response p) raw) = []
reply session (framed (online_command p) raw) = []
reply session (ascii_message s) = []

process-reply :
    (client_id : Text) (now : ℕ) (p : Packet) (queue : List Packet) (session : Option Text)
    (v : Server)
    → written (process_concox_packet client_id now p queue session v).effects ≡ reply session p
unfolding process_concox_packet
process-reply client_id now (framed (login p) raw) queue session v =
    append-nil (build_login_ack p.serial_number) ∙ (acks-build_concox_frame 0x01 p.serial_number).0
process-reply client_id now (framed (heartbeat p) raw) queue session v =
    append-nil (build_heartbeat_ack p.serial_number p.raw_packet_type)
    ∙ (acks-build_concox_frame p.raw_packet_type p.serial_number).1
process-reply client_id now (framed (location p) raw) queue none v = refl
process-reply client_id now (framed (location p) raw) queue (some imei) v =
    elim (Bool-cases (is_fixed p.gps_valid)) [
      | inl fixed ↦ elim (Bool-cases (out_of_range p.lat p.lng)) [
        | inl out ↦ rw (fixed, out) refl
        | inr within ↦ rw (fixed, within) refl
      ]
      | inr void ↦ rw void refl
    ]
process-reply client_id now (framed (alarm p) raw) queue none v = refl
process-reply client_id now (framed (alarm p) raw) queue (some imei) v =
    append-nil (build_alarm_ack p.raw_packet_type p.serial_number)
    ∙ (acks-build_concox_frame p.raw_packet_type p.serial_number).2
process-reply client_id now (framed (info p) raw) queue session v = refl
process-reply client_id now (framed (time_check p) raw) queue session v = refl
process-reply client_id now (framed (command_response p) raw) queue session v = refl
process-reply client_id now (framed (online_command p) raw) queue session v = refl
process-reply client_id now (ascii_message s) queue session v = refl

raw_effect-written : (o : Option Text) (p : Packet) → written (raw_effect o p) ≡ []
raw_effect-written none p = refl
raw_effect-written (some imei) p = refl

alarm_position-written :
    (now : ℕ) (p : Alarm) (queue : List Packet) (session : Option Text) (v : Server)
    → written (process_alarm_position now p queue session v).effects ≡ []
unfolding process_alarm_position
alarm_position-written now p queue session v =
    elim (Bool-cases (is_fixed p.gps_valid && not (out_of_range p.lat p.lng))) [
      | inl good ↦ rw good refl
      | inr bad ↦ rw bad refl
    ]

-- the reply that is due at a step: the packet's, when its raw message is out, and none before or after
abbrev pub due : Option Text → Phase → Bytes
due session idle = []
due session (published_raw p) = reply session p
due session (alarmed a) = []
due session located = []

-- A packet gets its reply in one step of its handler, and no other step writes anything: to a login, a
-- heartbeat, and an alarm of a session with an IMEI, the empty frame under its protocol number (0x01
-- for the login) and its serial number; to an alarm before the login and to the other packets nothing.
pub advance-written :
    (client_id : Text) (now : ℕ) (resolved : Bool) (h : Handler) (session : Option Text)
    (v : Server)
    → written (advance client_id now resolved h session v).effects ≡ due session h.phase
unfolding advance
advance-written client_id now resolved h session v = go resolved h.phase h.queue
  where
    go :
        (b : Bool) (phase : Phase) (queue : List Packet)
        → written
            (advance client_id now b (record { phase = phase; queue = queue }) session v).effects
          ≡ due session phase
    go b idle [] = refl
    go b idle (p ∷ queue) = raw_effect-written (or_else (packet_imei p) session) p
    go b (published_raw p) queue = process-reply client_id now p queue session v
    go true (alarmed a) queue = alarm_position-written now a queue session v
    go false (alarmed a) queue = refl
    go true located queue = refl
    go false located queue = refl
