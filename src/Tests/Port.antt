-- ===== src/Tests/Port.antt =====
-- The Concox port: one device connects, logs in and is answered.
use fueltracks.Prelude.{
  ◌≤◌, ◌≡◌, refl, true, none, some, List, [], ◌∷◌, ◌++◌, All, length, take, drop, arith,
}
use fueltracks.Js.Buffer.{Bytes}
use fueltracks.Js.Text.{Text, codes}
use fueltracks.Js.Map
use fueltracks.Concox.Frames.{parse_concox_buffer}
use fueltracks.Concox.Devices.{make_concox_login, send, next_serial}
use fueltracks.Concox.Fields.Imei.{pack_imei}
use fueltracks.Concox.Acks.{build_concox_frame}
use fueltracks.Server.Caps.{Config, Counts}
use fueltracks.Server.Caps.Laws.{IsWithin, accept, calls, count-empty, calls-IsWithin}
use fueltracks.Server.Session.{Server, Effect, idle, Handler, Progress}
use fueltracks.Server.Session.Process.{advance, Socket, on_connection, new_socket, on_data}
use fueltracks.Server.Session.System.{
  World, next_handler, connection, data_event, handler_step, Reach, started, continued,
}
use fueltracks.Server.Session.Accounts.{IsAccounted, Reach-IsAccounted}
use fueltracks.Server.Session.Publish.{Reach-IsPublishable}
use fueltracks.Server.Session.Handlers.{IsPublishable}
use fueltracks.Server.Session.Backpressure.{IsUnpaused, Reach-IsUnpaused}
use fueltracks.Server.Session.Replies.{written, due, advance-written}
use fueltracks.Concox.Frames.Stream.{stream}
use fueltracks.Server.Session.Stream.{Arrival, Delivers, arrive_all-stream}
use fueltracks.Tests.{no_date, some_imei, hyderabad, two_messages}

abbrev new_server : Server
new_server = record {
  connected_devices = Map.empty;
  total_packets_received = 0;
  total_packets_parsed = 0;
  total_packets_invalid = 0;
  metric_packets_parsed = 0;
  metric_packets_invalid = 0;
  connections = 0;
  total_connection_attempts = 0;
  backpressure_pauses = 0;
  last_successful_packet_at = none;
}

abbrev client : Text
client = codes "10.0.0.1:4000"

abbrev login_bytes : Bytes
login_bytes = (make_concox_login hyderabad).0

abbrev fed : Socket × Server
fed = on_data no_date 50 login_bytes (new_socket client) (on_connection new_server)

abbrev first_handler : Handler
first_handler = record {
  phase = idle;
  queue = (parse_concox_buffer no_date none ([] ++ login_bytes)).packets;
}

fed-handlers : fed.0.handlers ≡ first_handler ∷ []
unfolding on_data make_concox_login send build_concox_frame next_serial pack_imei
fed-handlers = refl

-- the first step of the handler: the login is counted, and its raw message is published
abbrev received : Progress
received = advance fed.0.client_id 1000 true first_handler fed.0.session_imei fed.1

abbrev logging_in : World
logging_in = record {
  server = received.server;
  sockets =
      record fed.0 { session_imei = received.session_imei; handlers = next_handler received ∷ [] }
      ∷ [];
}

abbrev so_far : List Effect
so_far = received.effects ++ []

Reach-logging_in : Reach no_date 50 new_server so_far logging_in
Reach-logging_in =
    continued
      (continued (continued started (connection client))
        (data_event [] [] (new_socket client) login_bytes refl))
      (handler_step [] [] fed.0 [] [] first_handler 1000 true received refl fed-handlers refl)

Reach-IsAccounted_example : IsAccounted logging_in
Reach-IsAccounted_example =
    Reach-IsAccounted no_date 50 new_server so_far logging_in refl Reach-logging_in

Reach-IsPublishable_example :
    All IsPublishable so_far × All (λ (s : Socket). length s.buffer ≤ 10240) logging_in.sockets
Reach-IsPublishable_example =
    Reach-IsPublishable no_date 50 new_server so_far logging_in Reach-logging_in

Reach-IsUnpaused_example : All IsUnpaused logging_in.sockets
Reach-IsUnpaused_example =
    Reach-IsUnpaused no_date 50 new_server so_far logging_in (omega arith) Reach-logging_in

advance-written_example :
    written (advance client 1001 true (next_handler received) none received.server).effects
    ≡ due none (next_handler received).phase
advance-written_example =
    advance-written client 1001 true (next_handler received) none received.server

abbrev caps : Config
caps = record { port_cap = λ p. 2; per_imei_cap = 3 }

abbrev no_sockets : Counts
no_sockets = record { ports = Map.empty; imeis = Map.empty }

no_sockets-IsWithin : IsWithin caps no_sockets
no_sockets-IsWithin = record {
  ports_within = λ p h. omega (arith, count-empty p);
  imeis_within = λ i. omega (arith, count-empty i);
}

calls-IsWithin_example : IsWithin caps (
    calls caps no_sockets
      (accept (codes "CONCOX") ∷ accept (codes "CONCOX") ∷ accept (codes "CONCOX") ∷ []))
calls-IsWithin_example =
    calls-IsWithin caps no_sockets
      (accept (codes "CONCOX") ∷ accept (codes "CONCOX") ∷ accept (codes "CONCOX") ∷ [])
      no_sockets-IsWithin

-- the two messages, cut after four bytes; the session's IMEI is set between the two chunks
abbrev two_events : List (Arrival × Server)
two_events =
    (record { session_imei = none; chunk = take 4 (stream two_messages) }, new_server)
    ∷ (record { session_imei = some some_imei; chunk = drop 4 (stream two_messages) }, new_server)
    ∷ []

arrive_all-stream_example : Delivers no_date 50 two_events two_messages (new_socket client)
unfolding stream build_concox_frame
arrive_all-stream_example =
    arrive_all-stream no_date 50 two_events two_messages (new_socket client)
      ((omega arith, omega arith), ((omega arith, omega arith), tt)) refl refl
      (omega arith, (omega arith, tt)) refl refl
