-- ===== src/Server/TextPort.antt =====
-- The text ports of tcp-server/server.js: `createProtocolServer` and `processPacket`.
pub mod Chunks
pub mod Refused
use fueltracks.Prelude.{
  ℕ, zero, suc, ◌+◌, ◌-◌, Bool, true, false, ◌&&◌, ◌||◌, not, Option, none, some, List, [], ◌∷◌,
  ◌++◌, get_or, length, ltb, leb, ◌==◌, if◌then◌else◌,
}
use fueltracks.Js.Buffer.{Bytes, Result, ok, err, byte}
use fueltracks.Js.Text.{Text, codes, equal}
use fueltracks.Js.Strings.{trim, split}
use fueltracks.Concox.Parsers.Info.{ascii}
use fueltracks.Js.Map
use fueltracks.Js.Map.{Map}
use fueltracks.Ascii.{Coordinate, TextLocation, TextAlert, AlertKind, Emergency}
use fueltracks.Ascii.Router.{
  TextPacket, normal, ais140_normal, alert, ais140_alert, emergency, text_login, health,
  parse_packet,
}
use fueltracks.Ascii.Validator.{
  validate_normal_packet, validate_alert_packet, validate_ais140_emergency_packet, is_missing,
}
use fueltracks.Server.Caps.{Config, Counts, track_imei_socket}

-- `packet.lastIndexOf('$')` and `packet.substring` from there; `none` for -1
unfoldable pub from_last_dollar : Text → Option Text
from_last_dollar [] = none
from_last_dollar (c ∷ s) = elim (from_last_dollar s) [
  | none ↦ if c == b'$' then some (c ∷ s) else none
  | some t ↦ some t
]

-- up to the first delimiter, with it, and what is behind it; `none` where there is none
unfoldable pub cut : ℕ → Text → Option (Text × Text)
cut delimiter [] = none
cut delimiter (c ∷ s) =
    let later = cut delimiter s in
    if c == delimiter
    then some (c ∷ [], s)
    else elim later [ none ↦ none | some p ↦ some (c ∷ p.0, p.1) ]

abbrev pub found : Option Text → List Text
found none = []
found (some packet) = packet ∷ []

-- The `while` loop: the packets that are complete, and the buffer that is left. A round takes the
-- delimiter at least, so that fuel equal to the length of the buffer is enough.
unfoldable pub take_packets : ℕ → ℕ → Text → List Text × Text
take_packets delimiter zero buffer = ([], buffer)
take_packets delimiter (suc fuel) buffer = elim (cut delimiter buffer) [
  | none ↦ ([], buffer)
  | some p ↦
      let (packets, rest) = take_packets delimiter fuel p.1 in
      (found (from_last_dollar p.0) ++ packets, rest)
]

abbrev pub packets_in : ℕ → Text → List Text × Text
packets_in delimiter buffer = take_packets delimiter (length buffer) buffer

-- a socket of a text port
pub record TextSocket : Type 0 where
  pub buffer : Text
  pub is_first_data : Bool
  pub destroyed : Bool

-- a chunk that begins with two bytes of the binary protocol
abbrev pub is_misrouted : Bytes → Bool
is_misrouted chunk =
    leb 2 (length chunk)
    && (byte chunk 0 == 0x78 && byte chunk 1 == 0x78
        || byte chunk 0 == 0x79 && byte chunk 1 == 0x79)

-- The `data` handler: the packets that it hands to `processPacket`, in order, and the socket.
unfoldable pub on_text_data : ℕ → Bytes → TextSocket → List Text × TextSocket
on_text_data delimiter chunk s =
    let (packets, rest) = packets_in delimiter (s.buffer ++ ascii chunk) in
    if s.is_first_data && is_misrouted chunk
    then ([], record s { is_first_data = false; destroyed = true })
    else (
      packets,
      record s { is_first_data = false; buffer = if ltb 10000 (length rest) then [] else rest },
    )

-- the counters and maps that `processPacket` changes
pub record TextState : Type 0 where
  pub counts : Counts
  pub connected_devices : Map (Text × Coordinate × Coordinate)
  pub total_packets_parsed : ℕ
  pub total_packets_invalid : ℕ
  pub rejected_by_cap : ℕ
  pub last_successful_packet_at : Option ℕ

pub data TextEffect : Type 0 where
  raw_published : TextPacket → TextEffect
  position_published : TextLocation → TextEffect
  alert_published : Text → AlertKind → Text → TextEffect

-- how the promise of an `async` function ends
pub data Promise : Type 0 where
  fulfilled rejected : Promise

abbrev pub invalid : TextState → TextState
invalid s = record s { total_packets_invalid = s.total_packets_invalid + 1 }

abbrev pub parsed : ℕ → TextState → TextState
parsed now s = record s {
  total_packets_parsed = s.total_packets_parsed + 1;
  last_successful_packet_at = some now;
}

abbrev pub text_imei : TextPacket → Text
text_imei (normal p) = p.imei
text_imei (ais140_normal p) = p.imei
text_imei (alert p) = p.imei
text_imei (ais140_alert p) = p.imei
text_imei (emergency p) = p.location.imei
text_imei (text_login p) = p.imei
text_imei (health p) = p.imei

abbrev track_position : Text → TextLocation → TextState → TextState
track_position client_id p s = record s {
  connected_devices = Map.set s.connected_devices p.imei (client_id, p.lat, p.lng);
}

unfoldable pub process_location : Text → ℕ → TextLocation → TextState → TextState × List TextEffect
process_location client_id now p s = elim (validate_normal_packet p) [
  | some reason ↦ (invalid s, [])
  | none ↦ (parsed now (track_position client_id p s), position_published p ∷ [])
]

unfoldable pub process_alert : ℕ → TextAlert → TextState → TextState × List TextEffect
process_alert now p s = elim (validate_alert_packet p) [
  | some reason ↦ (invalid s, [])
  | none ↦ (parsed now s, alert_published p.imei p.alert_type p.alert_text ∷ [])
]

unfoldable pub process_emergency : Text → ℕ → Emergency → TextState → TextState × List TextEffect
process_emergency client_id now p s = elim (validate_ais140_emergency_packet p) [
  | some reason ↦ (invalid s, [])
  | none ↦ (
    parsed now (track_position client_id p.location s),
    position_published p.location ∷ alert_published p.location.imei p.alert_type p.alert_text ∷ [],
  )
]

-- what comes behind the `if (parsed.imei)`
abbrev pub process_by_type : Text → ℕ → TextPacket → TextState → TextState × List TextEffect
process_by_type client_id now (normal p) s = process_location client_id now p s
process_by_type client_id now (ais140_normal p) s = process_location client_id now p s
process_by_type client_id now (alert p) s = process_alert now p s
process_by_type client_id now (ais140_alert p) s = process_alert now p s
process_by_type client_id now (emergency p) s = process_emergency client_id now p s
process_by_type client_id now (text_login p) s = (parsed now s, [])
process_by_type client_id now (health p) s = (parsed now s, [])

-- `if (parsed.imei) { … }` and what follows. `socket` is no parameter of `processPacket`, so that each
-- use of the name throws: at `socket.__imei = …`, and past the cap at `socket.destroy()`, where the
-- packet was counted as invalid already. The `catch` counts the exception as an invalid packet.
unfoldable pub process_parsed :
    Config → Text → ℕ → TextPacket → Text → TextState → TextState × List TextEffect
process_parsed config client_id now packet [] s = process_by_type client_id now packet s
process_parsed config client_id now packet (c ∷ cs) s =
    let (accepted, counts) = track_imei_socket config s.counts (c ∷ cs) in
    if accepted
    then (invalid (record s { counts = counts }), [])
    else (invalid (record (invalid s) { rejected_by_cap = s.rejected_by_cap + 1 }), [])

abbrev pub member : Text → List Text → Bool
member s [] = false
member s (t ∷ ts) = equal s t || member s ts

-- `processPacket`: the state and the effects at its end, and its promise, which the `finally` rejects
-- by its use of `socket`
unfoldable pub process_packet :
    Config
    → (Text → Option ℕ)
    → Text
    → ℕ
    → List Text
    → Text
    → TextState
    → TextState × List TextEffect × Promise
process_packet config date_parse client_id now allowed_headers raw s =
    let header = trim (get_or (split b',' raw) 0 []) in
    let done : TextState × List TextEffect =
      if not (member header allowed_headers)
      then (invalid s, [])
      else elim (parse_packet date_parse raw) [
        | err e ↦ (invalid s, [])
        | ok none ↦ (invalid s, [])
        | ok (some packet) ↦ process_parsed config client_id now packet (text_imei packet) s
      ] in
    (done.0, done.1, rejected)
