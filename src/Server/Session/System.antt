-- ===== src/Server/Session/System.antt =====
-- The Concox port as a system of sockets, whose events and handlers come in any order.
use fueltracks.Prelude.{ℕ, ◌≡◌, Bool, Option, List, [], ◌∷◌, ◌++◌}
use fueltracks.Js.Buffer.{Bytes}
use fueltracks.Js.Text.{Text}
use fueltracks.Server.Session.{Server, Effect, Handler, Progress}
use fueltracks.Server.Session.Process.{
  advance, Socket, on_connection, new_socket, on_data, on_close,
}

pub record World : Type 0 where
  pub server : Server
  pub sockets : List Socket

-- the handler after a step
abbrev pub next_handler : Progress → Handler
next_handler r = record { phase = r.phase; queue = r.queue }

-- One event, with the effects that it has. A handler is any of any socket, its step comes at a time
-- `now`, and the call at whose `await` it stood resolved or was rejected. A socket that was closed
-- stays in the list, since its handlers go on.
pub data Step (date_parse : Text → Option ℕ) (high_water : ℕ) (w : World)
    : List Effect → World → Type 0 where
  connection :
      (client_id : Text)
      → Step date_parse high_water w [] (record {
        server = on_connection w.server;
        sockets = w.sockets ++ new_socket client_id ∷ [];
      })
  data_event :
      (before after : List Socket) (s : Socket) (chunk : Bytes)
      → w.sockets ≡ before ++ s ∷ after
      → Step date_parse high_water w [] (record {
        server = (on_data date_parse high_water chunk s w.server).1;
        sockets = before ++ (on_data date_parse high_water chunk s w.server).0 ∷ after;
      })
  handler_step :
      (before after : List Socket) (s : Socket) (earlier later : List Handler) (h : Handler)
      (now : ℕ) (resolved : Bool) (r : Progress)
      → w.sockets ≡ before ++ s ∷ after
      → s.handlers ≡ earlier ++ h ∷ later
      → r ≡ advance s.client_id now resolved h s.session_imei w.server
      → Step date_parse high_water w r.effects (record {
        server = r.server;
        sockets =
            before
            ++ record s {
              session_imei = r.session_imei;
              handlers = earlier ++ next_handler r ∷ later;
            }
              ∷ after;
      })
  closed :
      (before after : List Socket) (s : Socket)
      → w.sockets ≡ before ++ s ∷ after
      → Step date_parse high_water w []
          (record { server = on_close s w.server; sockets = w.sockets })

-- What the port can come to, and all the effects on the way, the latest first.
pub data Reach (date_parse : Text → Option ℕ) (high_water : ℕ) (v : Server)
    : List Effect → World → Type 0 where
  started : Reach date_parse high_water v [] (record { server = v; sockets = [] })
  continued :
      {es fs : List Effect} {w w' : World}
      → Reach date_parse high_water v es w
      → Step date_parse high_water w fs w'
      → Reach date_parse high_water v (fs ++ es) w'
