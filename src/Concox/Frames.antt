-- ===== src/Concox/Frames.antt =====
-- `parseConcoxBuffer` of tcp-server/parser/concoxParser.js: the frame extractor and the dispatcher.
-- A buffer is read from `pos` on, so that an index `pos + k` of the source is the index `k` here.
pub mod Wire
pub mod Sound
pub mod Progress
pub mod Remainder
pub mod RoundTrip
pub mod Stream
pub mod Imeis
use fueltracks.Prelude.{
  ℕ, zero, suc, ◌+◌, ◌-◌, ◌*◌, ◌^◌, Bool, true, false, ◌&&◌, ◌||◌, not, Option, none, some, List,
  [], ◌∷◌, ◌++◌, length, take, drop, ltb, leb, ◌==◌, if◌then◌else◌,
}
use fueltracks.Js.Buffer.{Bytes, Result, ok, err, ◌>>=◌, byte, word, slice}
use fueltracks.Js.Text.{Text, upper_hex}
use fueltracks.Concox.Crc.{crc_itu}
use fueltracks.Concox.Packets.{
  Body, login, heartbeat, location, alarm, info, time_check, command_response, online_command, Bare,
  Packet, framed, ascii_message,
}
use fueltracks.Concox.Parsers.{or_null, parse_login, parse_heartbeat, parse_location, parse_alarm}
use fueltracks.Concox.Parsers.Info.{ascii, parse_info_transmission}

bare : Option Text → ℕ → ℕ → Bare
unfolding or_null
bare imei serial_number raw_packet_type = record {
  imei = or_null imei;
  serial_number = serial_number;
  raw_packet_type = raw_packet_type;
}

-- the `switch` on the protocol number; `none` is an unknown one
unfoldable pub dispatch : (Text → Option ℕ) → Option Text → ℕ → Bytes → ℕ → Result (Option Body)
unfolding bare
dispatch date_parse imei protocol content serial =
    if protocol == 0x01
    then (do p ← parse_login content serial; ok (some (login p)))
    else if protocol == 0x13 || protocol == 0x23
    then (do p ← parse_heartbeat content serial imei protocol; ok (some (heartbeat p)))
    else if protocol == 0x12 || protocol == 0x22
    then (do p ← parse_location date_parse content serial imei protocol; ok (some (location p)))
    else if protocol == 0x16 || protocol == 0x26
    then (do p ← parse_alarm date_parse content serial imei false protocol; ok (some (alarm p)))
    else if protocol == 0x27
    then (do p ← parse_alarm date_parse content serial imei true protocol; ok (some (alarm p)))
    else if protocol == 0x94
    then ok (some (info (parse_info_transmission content serial imei)))
    else if protocol == 0x8a
    then ok (some (time_check (bare imei serial 0x8a)))
    else if protocol == 0x21
    then ok (some (command_response (bare imei serial 0x21)))
    else if protocol == 0x80
    then ok (some (online_command (bare imei serial 0x80)))
    else ok none

-- the `try … catch`: an exception is logged and the frame dropped
unfoldable pub packets_of : Result (Option Body) → Bytes → List Packet
packets_of (ok (some body)) raw = framed body (upper_hex raw) ∷ []
packets_of (ok none) raw = []
packets_of (err e) raw = []

-- A frame that passed the tests of the stop bytes and of the CRC.
pub record Frame : Type 0 where
  pub protocol : ℕ
  pub content : Bytes
  pub serial : ℕ
  pub raw : Bytes
  pub size : ℕ

-- What one round of the `while` loop does: wait for more bytes, skip one byte, take a line of text
-- with its CRLF, or take a frame.
pub data Round : Type 0 where
  wait skip : Round
  text : Text → ℕ → Round
  frame : Frame → Round

-- the first `i` with CR at `i` and LF at `i + 1`
crlf_from : ℕ → Bytes → Option ℕ
crlf_from i [] = none
crlf_from i (a ∷ []) = none
crlf_from i (a ∷ b ∷ rest) =
    let later = crlf_from (i + 1) (b ∷ rest) in if a == 0x0d && b == 0x0a then some i else later

-- a round at a byte that starts no frame
unfoldable pub text_round : Bytes → Round
unfolding crlf_from
text_round rest =
    if leb 0x20 (byte rest 0) && leb (byte rest 0) 0x7e
    then elim (crlf_from 0 rest) [ none ↦ skip | some i ↦ text (ascii (slice 0 i rest)) (i + 2) ]
    else skip

-- the parts of a frame of `frame_size` bytes whose length field has `length_field` bytes
abbrev pub frame_parts : ℕ → ℕ → Bytes → Frame
frame_parts length_field frame_size rest = record {
  protocol = byte rest (2 + length_field);
  content = slice (2 + length_field + 1) (frame_size - 6) rest;
  serial = word (byte rest (frame_size - 6)) (byte rest (frame_size - 5));
  raw = slice 0 frame_size rest;
  size = frame_size;
}

unfoldable pub frame_round : ℕ → ℕ → Bytes → Round
frame_round length_field frame_size rest =
    if ltb (length rest) frame_size
    then wait
    else if not (byte rest (frame_size - 2) == 0x0d && byte rest (frame_size - 1) == 0x0a)
    then skip
    else if not (
        crc_itu (slice 2 (frame_size - 4) rest)
        == word (byte rest (frame_size - 4)) (byte rest (frame_size - 3)))
    then skip
    else frame (frame_parts length_field frame_size rest)

unfoldable pub round : Bytes → Round
round rest =
    if ltb (length rest) 2
    then wait
    else if byte rest 0 == 0x78 && byte rest 1 == 0x78
    then if ltb (length rest) 3 then wait else frame_round 1 (2 + 1 + byte rest 2 + 2) rest
    else if byte rest 0 == 0x79 && byte rest 1 == 0x79
    then if ltb (length rest) 4
      then wait
      else frame_round 2 (2 + 2 + (byte rest 2 * 2 ^ 8 + byte rest 3) + 2 + 2 + 2) rest
    else text_round rest

pub record Parsed : Type 0 where
  pub packets : List Packet
  pub remainder : Bytes

abbrev pub put : List Packet → Parsed → Parsed
put ps r = record r { packets = ps ++ r.packets }

-- The `while` loop. A round that does not wait takes at least one byte, so that fuel equal to the
-- length is enough.
unfoldable pub parse_loop : (Text → Option ℕ) → Option Text → ℕ → Bytes → Parsed
parse_loop date_parse imei zero rest = record { packets = []; remainder = rest }
parse_loop date_parse imei (suc fuel) rest = elim (round rest) [
  | wait ↦ record { packets = []; remainder = rest }
  | skip ↦ parse_loop date_parse imei fuel (drop 1 rest)
  | text s n ↦ put (ascii_message s ∷ []) (parse_loop date_parse imei fuel (drop n rest))
  | frame f ↦
      put (packets_of (dispatch date_parse imei f.protocol f.content f.serial) f.raw)
        (parse_loop date_parse imei fuel (drop f.size rest))
]

unfoldable pub parse_concox_buffer : (Text → Option ℕ) → Option Text → Bytes → Parsed
unfolding parse_loop
parse_concox_buffer date_parse imei buffer = parse_loop date_parse imei (length buffer) buffer
