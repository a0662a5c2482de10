-- ===== src/Server/Session/Stream.antt =====
-- A device's frames, cut into chunks by TCP, in the `data` handler of `createConcoxServer`.
use fueltracks.Prelude.{
  ℕ, suc, ◌<◌, ◌+◌, ◌≤◌, ◌≡◌, refl, sym, ap, ◌∙◌, Bool, true, false, if◌then◌else◌, Option, List,
  [], ◌∷◌, ◌++◌, append-nil, append_assoc, length, length-append, All, ltb, ltb-false, leb, arith,
}
use fueltracks.Js.Buffer.{Bytes}
use fueltracks.Js.Text.{Text}
use fueltracks.Concox.Frames.{wait, round, parse_concox_buffer, Parsed}
use fueltracks.Concox.Frames.Stream.{Message, IsSendable, stream, expected, split, waits-empty}
use fueltracks.Server.Session.{Server, idle, Handler}
use fueltracks.Server.Session.Process.{Socket, on_data}

-- A chunk, with the session's IMEI as the handlers that are under way have left it by the time.
pub record Arrival : Type 0 where
  pub session_imei : Option Text
  pub chunk : Bytes

abbrev pub received : List Arrival → Bytes
received [] = []
received (a ∷ arrivals) = a.chunk ++ received arrivals

-- The handler of a `data` event that has these packets.
abbrev pub new_handler : (Text → Option ℕ) → Option Text → List Message → Handler
new_handler date_parse imei group = record { phase = idle; queue = expected date_parse imei group }

-- The handlers of the events, each with the messages that its chunk completes.
abbrev pub new_handlers : (Text → Option ℕ) → List Arrival → List (List Message) → List Handler
new_handlers date_parse (a ∷ arrivals) (group ∷ groups) =
    new_handler date_parse a.session_imei group ∷ new_handlers date_parse arrivals groups
new_handlers date_parse _ _ = []

abbrev pub flatten : List (List Message) → List Message
flatten [] = []
flatten (group ∷ groups) = group ++ flatten groups

round-nil : round [] ≡ wait
unfolding round
round-nil = refl

module _ (date_parse : Text → Option ℕ) (high_water : ℕ) where
  -- The `data` events one after the other. What the handlers do in between is seen here in the session's
  -- IMEI and the server alone: it changes neither the buffer nor whether the socket is paused.
  abbrev pub arrive : Arrival → Server → Socket → Socket
  arrive a v s =
      (on_data date_parse high_water a.chunk (record s { session_imei = a.session_imei }) v).0

  abbrev pub arrive_all : List (Arrival × Server) → Socket → Socket
  arrive_all [] s = s
  arrive_all ((a, v) ∷ events) s = arrive_all events (arrive a v s)

  abbrev pub arrivals : List (Arrival × Server) → List Arrival
  arrivals [] = []
  arrivals ((a, v) ∷ events) = a ∷ arrivals events

  abbrev parsed : Arrival → Socket → Socket
  parsed a s =
      let result = parse_concox_buffer date_parse a.session_imei (s.buffer ++ a.chunk) in
      record s {
        session_imei = a.session_imei;
        buffer = result.remainder;
        handlers = s.handlers ++ record { phase = idle; queue = result.packets } ∷ [];
      }

  -- the handler with its first test as a parameter
  abbrev tested : Arrival → Server → Socket → Bool → Socket
  tested a v s stops =
      let s1 : Socket = if stops then record s { paused = true } else s in
      let v1 : Server =
        if stops then record v { backpressure_pauses = v.backpressure_pauses + 1 } else v in
      let buffer = s1.buffer ++ a.chunk in
      let result = parse_concox_buffer date_parse s1.session_imei buffer in
      let end : Socket × Server =
        if s1.paused
        then (s1, v1)
        else if ltb 10240 (length buffer)
        then (record s1 { buffer = [] }, v1)
        else (
          record s1 {
            buffer = result.remainder;
            handlers = s1.handlers ++ record { phase = idle; queue = result.packets } ∷ [];
          },
          v1,
        ) in
      end.0

  unpaused_arrive :
      (a : Arrival) (v : Server) (s : Socket)
      → leb high_water s.pending ≡ false
      → length (s.buffer ++ a.chunk) ≤ 10240
      → arrive a v (record s { paused = false }) ≡ parsed a (record s { paused = false })
  unfolding on_data
  unpaused_arrive a v s calm fits =
      let calm_socket : Socket = record s { session_imei = a.session_imei; paused = false } in
      ap (tested a v calm_socket) calm
      ∙ ap
          (λ (over : Bool).
            let end : Socket × Server =
              if over
              then (record calm_socket { buffer = [] }, v)
              else (parsed a (record s { paused = false }), v) in
            end.0)
          (ltb-false 10240 (length (s.buffer ++ a.chunk)) fits)

  -- A chunk that fits is parsed behind what is in the buffer.
  arrive-parsed :
      (a : Arrival) (v : Server) (s : Socket)
      → s.paused ≡ false
      → leb high_water s.pending ≡ false
      → length (s.buffer ++ a.chunk) ≤ 10240
      → arrive a v s ≡ parsed a s
  arrive-parsed a v s unpaused calm fits =
      let same : s ≡ record s { paused = false } = ap (λ b. record s { paused = b }) unpaused in
      ap (arrive a v) same ∙ unpaused_arrive a v s calm fits ∙ ap (parsed a) (sym same)

  chunk_fits :
      (rest chunk : Bytes)
      → length rest < 260
      → length chunk ≤ 9980
      → length (rest ++ chunk) ≤ 10240
  chunk_fits rest chunk h k = omega (arith, h, k, length-append rest chunk)

  -- The messages that the chunks complete, event by event.
  abbrev pub Delivers : List (Arrival × Server) → List Message → Socket → Type 0
  Delivers events ms s =
      let last = arrive_all events s in
      (groups : List (List Message)) × (length groups ≡ length events)
      × (flatten groups ≡ ms)
      × (last.handlers ≡ s.handlers ++ new_handlers date_parse (arrivals events) groups)
      × (last.buffer ≡ [])

  delivers :
      (events : List (Arrival × Server)) (ms : List Message) (s : Socket)
      → All IsSendable ms
      → s.paused ≡ false
      → leb high_water s.pending ≡ false
      → All (λ (e : Arrival × Server). length e.0.chunk ≤ 9980) events
      → round s.buffer ≡ wait
      → length s.buffer < 260
      → s.buffer ++ received (arrivals events) ≡ stream ms
      → Delivers events ms s
  delivers [] ms s ok unpaused calm fit waits short e =
      let (none_left, empty) = waits-empty ms s.buffer ok waits (sym (append-nil s.buffer) ∙ e) in
      ([], refl, sym none_left, sym (append-nil s.handlers), empty)
  delivers ((a, v) ∷ events) ms s ok unpaused calm (fit, fits) waits short e =
      let missing = received (arrivals events) in
      let (group, rest, later, parse, rest_waits, rest_short, joins, fine, says) =
        split date_parse a.session_imei ms (s.buffer ++ a.chunk) missing ok
          (append_assoc s.buffer a.chunk missing ∙ e) in
      let mine = new_handler date_parse a.session_imei group in
      let s1 : Socket = record s {
        session_imei = a.session_imei;
        buffer = rest;
        handlers = s.handlers ++ mine ∷ [];
      } in
      let step : arrive a v s ≡ s1 =
        arrive-parsed a v s unpaused calm (chunk_fits s.buffer a.chunk short fit)
        ∙ ap
            (λ (result : Parsed). record s {
              session_imei = a.session_imei;
              buffer = result.remainder;
              handlers = s.handlers ++ record { phase = idle; queue = result.packets } ∷ [];
            })
            parse in
      let (groups, as_many, same, hs, empty) =
        delivers events later s1 fine unpaused calm fits rest_waits rest_short joins in
      (
        group ∷ groups,
        ap suc as_many,
        ap (λ l. group ++ l) same ∙ sym says,
        ap (λ t. (arrive_all events t).handlers) step
            ∙ hs
            ∙ append_assoc s.handlers (mine ∷ [])
                (new_handlers date_parse (arrivals events) groups),
        ap (λ t. (arrive_all events t).buffer) step ∙ empty,
      )

  -- Frames of messages of at most 250 bytes of content and a serial number of 16 bits, cut by TCP
  -- anywhere into chunks of at most 9980 bytes, reach the loop over the packets whole: from an empty
  -- buffer, with a socket that is not paused and whose pending calls are below the high-water mark,
  -- each event starts one handler, with the packets of the messages that its chunk completes, as the
  -- dispatcher makes them with the IMEI that the session has by then; every message is in exactly one
  -- of them, in order; and the buffer is empty at the end. The servers in between are arbitrary.
  pub arrive_all-stream :
      (events : List (Arrival × Server)) (ms : List Message) (s : Socket)
      → All IsSendable ms
      → s.paused ≡ false
      → leb high_water s.pending ≡ false
      → All (λ (e : Arrival × Server). length e.0.chunk ≤ 9980) events
      → s.buffer ≡ []
      → received (arrivals events) ≡ stream ms
      → Delivers events ms s
  arrive_all-stream events ms s ok unpaused calm fits empty e =
      delivers events ms s ok unpaused calm fits (ap round empty ∙ round-nil)
        (omega (arith, ap length empty)) (ap (λ b. b ++ received (arrivals events)) empty ∙ e)
