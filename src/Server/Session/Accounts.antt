-- ===== src/Server/Session/Accounts.antt =====
-- What the counters of the Concox port count, in any order of its events.
use fueltracks.Prelude.{
  ℕ, ◌+◌, ◌≡◌, refl, sym, ap, subst, Bool, true, false, not, ◌&&◌, Bool-cases, inl, inr, Option,
  Option-cases, none, some, List, [], ◌∷◌, ◌++◌, length, leb, ltb, arith,
}
use fueltracks.Js.Buffer.{Bytes}
use fueltracks.Js.Text.{Text}
use fueltracks.Concox.Packets.{
  login, heartbeat, location, alarm, info, time_check, command_response, online_command, Alarm,
  Packet, framed, ascii_message,
}
use fueltracks.Concox.Frames.{parse_concox_buffer}
use fueltracks.Server.Session.{
  Server, Effect, Phase, idle, published_raw, alarmed, located, Handler, Progress, is_fixed,
  out_of_range,
}
use fueltracks.Server.Session.Process.{
  process_concox_packet, process_alarm_position, advance, Socket, new_socket, on_data, on_close,
}
use fueltracks.Server.Session.System.{
  World, next_handler, Step, connection, data_event, handler_step, closed, Reach, started,
  continued,
}

module _ {ℓ} {A : Type ℓ} where
  abbrev pub sum_by : (A → ℕ) → List A → ℕ
  sum_by f [] = 0
  sum_by f (x ∷ xs) = f x + sum_by f xs

  pub sum_by-append : (f : A → ℕ) (xs ys : List A) → sum_by f (xs ++ ys) ≡ sum_by f xs + sum_by f ys
  sum_by-append f [] ys = omega arith
  sum_by-append f (x ∷ xs) ys = omega (arith, sum_by-append f xs ys)

-- a packet that was counted as received and as nothing else yet
abbrev pub phase_weight : Phase → ℕ
phase_weight idle = 0
phase_weight (published_raw p) = 1
phase_weight (alarmed a) = 1
phase_weight located = 1

abbrev pub handler_weight : Handler → ℕ
handler_weight h = phase_weight h.phase

abbrev pub in_flight : Socket → ℕ
in_flight s = sum_by handler_weight s.handlers

abbrev pub resolved_packets : Server → ℕ
resolved_packets v = v.total_packets_parsed + v.total_packets_invalid

-- The step from one server and weight to the next loses no packet.
abbrev Balanced : ℕ → Server → Progress → Type 0
Balanced weight v r =
    v.total_packets_received + resolved_packets r.server + phase_weight r.phase
    ≡ r.server.total_packets_received + resolved_packets v + weight

process-Balanced :
    (client_id : Text) (now : ℕ) (p : Packet) (queue : List Packet) (session : Option Text)
    (v : Server)
    → Balanced 1 v (process_concox_packet client_id now p queue session v)
unfolding process_concox_packet
process-Balanced client_id now (framed (login p) raw) queue session v = omega arith
process-Balanced client_id now (framed (heartbeat p) raw) queue session v = omega arith
process-Balanced client_id now (framed (location p) raw) queue none v = omega arith
process-Balanced client_id now (framed (location p) raw) queue (some imei) v =
    elim (Bool-cases (is_fixed p.gps_valid)) [
      | inl fixed ↦ elim (Bool-cases (out_of_range p.lat p.lng)) [
        | inl out ↦ rw (fixed, out) (omega arith)
        | inr within ↦ rw (fixed, within) (omega arith)
      ]
      | inr void ↦ rw void (omega arith)
    ]
process-Balanced client_id now (framed (alarm p) raw) queue none v = omega arith
process-Balanced client_id now (framed (alarm p) raw) queue (some imei) v = omega arith
process-Balanced client_id now (framed (info p) raw) queue session v = omega arith
process-Balanced client_id now (framed (time_check p) raw) queue session v = omega arith
process-Balanced client_id now (framed (command_response p) raw) queue session v = omega arith
process-Balanced client_id now (framed (online_command p) raw) queue session v = omega arith
process-Balanced client_id now (ascii_message s) queue session v = omega arith

alarm_position-Balanced :
    (now : ℕ) (p : Alarm) (queue : List Packet) (session : Option Text) (v : Server)
    → Balanced 1 v (process_alarm_position now p queue session v)
unfolding process_alarm_position
alarm_position-Balanced now p queue session v =
    elim (Bool-cases (is_fixed p.gps_valid && not (out_of_range p.lat p.lng))) [
      | inl good ↦ rw good (omega arith)
      | inr bad ↦ rw bad (omega arith)
    ]

advance-Balanced :
    (client_id : Text) (now : ℕ) (resolved : Bool) (h : Handler) (session : Option Text)
    (v : Server)
    → Balanced (handler_weight h) v (advance client_id now resolved h session v)
unfolding advance
advance-Balanced client_id now resolved h session v = go resolved h.phase h.queue refl
  where
    go :
        (b : Bool) (phase : Phase) (queue : List Packet)
        → b ≡ resolved
        → Balanced
            (phase_weight phase)
            v
            (advance client_id now b (record { phase = phase; queue = queue }) session v)
    go b idle [] e = omega arith
    go b idle (p ∷ queue) e = omega arith
    go b (published_raw p) queue e = process-Balanced client_id now p queue session v
    go true (alarmed a) queue e = alarm_position-Balanced now a queue session v
    go false (alarmed a) queue e = omega arith
    go true located queue e = omega arith
    go false located queue e = omega arith

on_data-in_flight :
    (date_parse : Text → Option ℕ) (high_water : ℕ) (chunk : Bytes) (s : Socket) (v : Server)
    → let (s', v') = on_data date_parse high_water chunk s v in
      (in_flight s' ≡ in_flight s)
      × (v'.total_packets_received ≡ v.total_packets_received)
      × (resolved_packets v' ≡ resolved_packets v)
unfolding on_data
on_data-in_flight date_parse high_water chunk s v =
    let idle_weight = sum_by-append handler_weight s.handlers in
    elim (Bool-cases (not s.paused && leb high_water s.pending)) [
      | inl stops ↦ rw stops (refl, refl, refl)
      | inr goes ↦ elim (Bool-cases s.paused) [
        | inl paused ↦ rw (goes, paused) (refl, refl, refl)
        | inr reads ↦ elim (Bool-cases (ltb 10240 (length (s.buffer ++ chunk)))) [
          | inl full ↦ rw (goes, reads, full) (refl, refl, refl)
          | inr fits ↦
              rw (goes, reads, fits)
                (
                  omega (
                    arith,
                    idle_weight (
                        record {
                          phase = idle;
                          queue =
                              (parse_concox_buffer date_parse s.session_imei
                                (s.buffer ++ chunk)).packets;
                        }
                        ∷ []),
                  ),
                  refl,
                  refl,
                )
        ]
      ]
    ]

on_close-counts :
    (s : Socket) (v : Server)
    → ((on_close s v).total_packets_received ≡ v.total_packets_received)
      × (resolved_packets (on_close s v) ≡ resolved_packets v)
unfolding on_close
on_close-counts s v = elim (Option-cases s.session_imei) [
  | inl unknown ↦ rw unknown (refl, refl)
  | inr (imei, known) ↦ rw known (refl, refl)
]

-- Every packet received is parsed, or invalid, or under way in a handler.
abbrev pub IsAccounted : World → Type 0
IsAccounted w =
    w.server.total_packets_received ≡ resolved_packets w.server + sum_by in_flight w.sockets

Step-IsAccounted :
    (date_parse : Text → Option ℕ) (high_water : ℕ) (w : World) (es : List Effect) (w' : World)
    → Step date_parse high_water w es w'
    → IsAccounted w
    → IsAccounted w'
Step-IsAccounted date_parse high_water w es w' (connection client_id) a =
    omega (arith, a, sum_by-append in_flight w.sockets (new_socket client_id ∷ []))
Step-IsAccounted date_parse high_water w es w' (data_event before after s chunk e) a =
    let (s', v') = on_data date_parse high_water chunk s w.server in
    let (same, received, resolved) = on_data-in_flight date_parse high_water chunk s w.server in
    omega (
      arith,
      a,
      ap (sum_by in_flight) e,
      sum_by-append in_flight before (s ∷ after),
      sum_by-append in_flight before (s' ∷ after),
      same,
      received,
      resolved,
    )
Step-IsAccounted date_parse high_water w es w'
      (handler_step before after s earlier later h now resolved r e eh er) a =
    let balanced =
      subst (Balanced (handler_weight h) w.server) (sym er)
        (advance-Balanced s.client_id now resolved h s.session_imei w.server) in
    let s' : Socket = record s {
      session_imei = r.session_imei;
      handlers = earlier ++ next_handler r ∷ later;
    } in
    omega (
      arith,
      a,
      balanced,
      ap (sum_by in_flight) e,
      sum_by-append in_flight before (s ∷ after),
      sum_by-append in_flight before (s' ∷ after),
      ap (sum_by handler_weight) eh,
      sum_by-append handler_weight earlier (h ∷ later),
      sum_by-append handler_weight earlier (next_handler r ∷ later),
    )
Step-IsAccounted date_parse high_water w es w' (closed before after s e) a =
    omega (arith, a, (on_close-counts s w.server).0, (on_close-counts s w.server).1)

-- In whatever order the events and the handlers of the port come: from a server whose received packets
-- are all parsed or invalid, the received packets are at any time the parsed ones, the invalid ones
-- and those that a handler has in flight.
pub Reach-IsAccounted :
    (date_parse : Text → Option ℕ) (high_water : ℕ) (v : Server) (es : List Effect) (w : World)
    → v.total_packets_received ≡ resolved_packets v
    → Reach date_parse high_water v es w
    → IsAccounted w
Reach-IsAccounted date_parse high_water v es w start started = omega (arith, start)
Reach-IsAccounted date_parse high_water v es w start
      (continued {es = es'} {fs} {w = w₀} before step) =
    Step-IsAccounted date_parse high_water w₀ fs w step
      (Reach-IsAccounted date_parse high_water v es' w₀ start before)
