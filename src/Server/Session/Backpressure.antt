-- ===== src/Server/Session/Backpressure.antt =====
-- The backpressure of the Concox port: nothing ever counts `__pendingPublishes` up.
use fueltracks.Prelude.{
  ℕ, ◌≤◌, ◌≡◌, refl, false, Bool-cases, inl, inr, Option, List, [], ◌∷◌, ◌++◌, All, All-append,
  length, leb, ltb, arith,
}
use fueltracks.Js.Buffer.{Bytes}
use fueltracks.Js.Text.{Text}
use fueltracks.Server.Session.{Server, Effect}
use fueltracks.Server.Session.Process.{Socket, on_data, new_socket}
use fueltracks.Server.Session.System.{
  World, next_handler, Step, connection, data_event, handler_step, closed, Reach, started,
  continued,
}
use fueltracks.Prelude.{replaced}

abbrev pub IsUnpaused : Socket → Type 0
IsUnpaused s = (s.pending ≡ 0) × (s.paused ≡ false)

data-IsUnpaused :
    (date_parse : Text → Option ℕ) (high_water : ℕ) (chunk : Bytes) (s : Socket) (v : Server)
    → 1 ≤ high_water
    → IsUnpaused s
    → IsUnpaused (on_data date_parse high_water chunk s v).0
unfolding on_data
data-IsUnpaused date_parse high_water chunk s v h (none_pending, reads) =
    let goes : leb high_water s.pending ≡ false = ground arith in
    elim (Bool-cases (ltb 10240 (length (s.buffer ++ chunk)))) [
      | inl full ↦ rw (goes, reads, full) (none_pending, refl)
      | inr fits ↦ rw (goes, reads, fits) (none_pending, refl)
    ]

Step-IsUnpaused :
    (date_parse : Text → Option ℕ) (high_water : ℕ) (w : World) (es : List Effect) (w' : World)
    → 1 ≤ high_water
    → Step date_parse high_water w es w'
    → All IsUnpaused w.sockets
    → All IsUnpaused w'.sockets
Step-IsUnpaused date_parse high_water w es w' h (connection client_id) a =
    All-append IsUnpaused w.sockets (new_socket client_id ∷ []) a ((refl, refl), tt)
Step-IsUnpaused date_parse high_water w es w' h (data_event before after s chunk e) a =
    replaced IsUnpaused before after w.sockets s (on_data date_parse high_water chunk s w.server).0
      e a (data-IsUnpaused date_parse high_water chunk s w.server h)
Step-IsUnpaused date_parse high_water w es w' h
      (handler_step before after s earlier others x now resolved r e eh er) a =
    replaced IsUnpaused before after w.sockets s
      (record s { session_imei = r.session_imei; handlers = earlier ++ next_handler r ∷ others }) e
      a (λ u. u)
Step-IsUnpaused date_parse high_water w es w' h (closed before after s e) a = a

-- With any high-water mark of at least 1, whatever chunks arrive and however slow the handlers are: no
-- socket of the port ever counts a pending publish, and none is ever paused.
pub Reach-IsUnpaused :
    (date_parse : Text → Option ℕ) (high_water : ℕ) (v : Server) (es : List Effect) (w : World)
    → 1 ≤ high_water
    → Reach date_parse high_water v es w
    → All IsUnpaused w.sockets
Reach-IsUnpaused date_parse high_water v es w h started = tt
Reach-IsUnpaused date_parse high_water v es w h (continued {es = es'} {fs} {w = w₀} before step) =
    Step-IsUnpaused date_parse high_water w₀ fs w h step
      (Reach-IsUnpaused date_parse high_water v es' w₀ h before)
