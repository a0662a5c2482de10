-- ===== src/Server/Session/Publish.antt =====
-- What the Concox port publishes, in any order of its events.
use fueltracks.Prelude.{
  All-split, replaced, ℕ, ◌≤◌, ◌≡◌, sym, subst, Bool, Option, List, [], ◌∷◌, ◌++◌, All, All-append,
  length, arith,
}
use fueltracks.Js.Text.{Text}
use fueltracks.Server.Session.{Server, Effect, Handler}
use fueltracks.Server.Session.Process.{advance, Socket, on_data, new_socket}
use fueltracks.Server.Session.System.{
  World, next_handler, Step, connection, data_event, handler_step, closed, Reach, started,
  continued,
}
use fueltracks.Server.Session.Handlers.{
  IsPublishable, IsSoundHandler, SoundProgress, advance_sound, IsSoundSocket, handlers_sound,
  on_data_sound,
}

handler_sound :
    (s : Socket) (earlier later : List Handler) (h : Handler) (now : ℕ) (resolved : Bool)
    (v : Server)
    → s.handlers ≡ earlier ++ h ∷ later
    → IsSoundSocket s
    → let r = advance s.client_id now resolved h s.session_imei v in
      SoundProgress s.session_imei r
      × IsSoundSocket
          (record s { session_imei = r.session_imei; handlers = earlier ++ next_handler r ∷ later })
handler_sound s earlier later h now resolved v e (known, hs, small) =
    let r = advance s.client_id now resolved h s.session_imei v in
    let (before, (own, after)) =
      All-split (IsSoundHandler s.session_imei) earlier (h ∷ later)
        (subst (All (IsSoundHandler s.session_imei)) e hs) in
    let sound = advance_sound s.client_id now resolved h s.session_imei v known own in
    (
      sound,
      (
        sound.0,
        All-append (IsSoundHandler r.session_imei) earlier (next_handler r ∷ later)
            (handlers_sound s.session_imei r.session_imei earlier sound.1 before)
            (sound.2, handlers_sound s.session_imei r.session_imei later sound.1 after),
        small,
      ),
    )

Step-sound :
    (date_parse : Text → Option ℕ) (high_water : ℕ) (w : World) (es : List Effect) (w' : World)
    → Step date_parse high_water w es w'
    → All IsSoundSocket w.sockets
    → All IsSoundSocket w'.sockets × All IsPublishable es
Step-sound date_parse high_water w es w' (connection client_id) a = (
  All-append IsSoundSocket w.sockets (new_socket client_id ∷ []) a ((tt, tt, omega arith), tt),
  tt,
)
Step-sound date_parse high_water w es w' (data_event before after s chunk e) a = (
  replaced IsSoundSocket before after w.sockets s (on_data date_parse high_water chunk s w.server).0
      e a (on_data_sound date_parse high_water chunk s w.server),
  tt,
)
Step-sound date_parse high_water w es w'
      (handler_step before after s earlier others h now resolved r e eh er) a =
    let (l, (own, rest)) =
      All-split IsSoundSocket before (s ∷ after) (subst (All IsSoundSocket) e a) in
    let (progress, socket) =
      subst
        (λ q.
          SoundProgress s.session_imei q
          × IsSoundSocket (record s {
            session_imei = q.session_imei;
            handlers = earlier ++ next_handler q ∷ others;
          }))
        (sym er) (handler_sound s earlier others h now resolved w.server eh own) in
    let s' : Socket = record s {
      session_imei = r.session_imei;
      handlers = earlier ++ next_handler r ∷ others;
    } in
    (All-append IsSoundSocket before (s' ∷ after) l (socket, rest), progress.3)
Step-sound date_parse high_water w es w' (closed before after s e) a = (a, tt)

Reach-sound :
    (date_parse : Text → Option ℕ) (high_water : ℕ) (v : Server) (es : List Effect) (w : World)
    → Reach date_parse high_water v es w
    → All IsSoundSocket w.sockets × All IsPublishable es
Reach-sound date_parse high_water v es w started = (tt, tt)
Reach-sound date_parse high_water v es w (continued {es = es'} {fs} {w = w₀} before step) =
    let (sockets, effects) = Reach-sound date_parse high_water v es' w₀ before in
    let (sockets', effects') = Step-sound date_parse high_water w₀ fs w step sockets in
    (sockets', All-append IsPublishable fs es' effects' effects)

-- In whatever order the events and the handlers of the port come, from any chunks of bytes: every raw
-- message, every alert and every location that was published bears an IMEI of 14 to 16 digits; every
-- location is within 90 degrees of latitude and 180 degrees of longitude; and no buffer is longer than
-- 10240 bytes.
pub Reach-IsPublishable :
    (date_parse : Text → Option ℕ) (high_water : ℕ) (v : Server) (es : List Effect) (w : World)
    → Reach date_parse high_water v es w
    → All IsPublishable es × All (λ (s : Socket). length s.buffer ≤ 10240) w.sockets
Reach-IsPublishable date_parse high_water v es w reach =
    let (sockets, effects) = Reach-sound date_parse high_water v es w reach in
    (effects, buffers w.sockets sockets)
  where
    buffers :
        (ss : List Socket) → All IsSoundSocket ss → All (λ (s : Socket). length s.buffer ≤ 10240) ss
    buffers [] a = tt
    buffers (s ∷ ss) (p, a) = (p.2, buffers ss a)
