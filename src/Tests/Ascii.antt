-- ===== src/Tests/Ascii.antt =====
-- The text protocols at concrete packets.
use fueltracks.Prelude.{
  ℕ, ◌≡◌, ◌↔◌, refl, true, false, arith, Option, none, some, List, [], ◌∷◌, ◌++◌, All,
}
use fueltracks.Js.Buffer.{Bytes, ok}
use fueltracks.Js.Map
use fueltracks.Js.Text.{Text, codes, equal}
use fueltracks.Js.Strings.{join, trim}
use fueltracks.Js.Strings.Split.{IsFree, all_lack-IsFree}
use fueltracks.Concox.Fields.{all_digits}
use fueltracks.Concox.Parsers.Info.{ascii}
use fueltracks.Ascii.{TextLocation, nan}
use fueltracks.Ascii.Bstpl.{normal_fields, parse_normal_packet}
use fueltracks.Ascii.Bstpl.Lines.{NormalLine, sent_fields, meant, parse_normal_packet-meant}
use fueltracks.Ascii.Coordinates.{ddm_units, ddm_to_decimal, parse_device_time}
use fueltracks.Ascii.Validator.{has_15_digits, validate_normal_packet}
use fueltracks.Ascii.Validator.Accepted.{IsAccepted, validate_normal_packet-IsAccepted}
use fueltracks.Server.Caps.{Config}
use fueltracks.Server.TextPort.{
  from_last_dollar, cut, take_packets, packets_in, TextSocket, TextState, process_packet, rejected,
}
use fueltracks.Server.TextPort.Chunks.{feed_text, all_text, feed_text-packets_in}
use fueltracks.Server.TextPort.Refused.{IsRefused, process_packet-IsRefused}

-- every text is the date of the epoch
abbrev epoch : Text → Option ℕ
epoch s = some 0

-- the fields of a packet with the latitude given
abbrev fields : Text → List Text
fields lat =
    codes "865006049210220"
    ∷ codes "A"
    ∷ codes "010126"
    ∷ codes "000005"
    ∷ lat
    ∷ codes "N"
    ∷ codes "07831.4323"
    ∷ codes "E"
    ∷ codes "45"
    ∷ codes "54321"
    ∷ codes "180"
    ∷ codes "12"
    ∷ codes "31"
    ∷ codes "90"
    ∷ codes "1"
    ∷ codes "0"
    ∷ codes "0"
    ∷ codes "0"
    ∷ codes "00.0000"
    ∷ codes "55.5"
    ∷ codes "12.15"
    ∷ codes "L#"
    ∷ []

abbrev location : Text → TextLocation
location lat = normal_fields epoch (codes "$10" ∷ fields lat) (codes "$10")

-- A latitude `Infinity` becomes `NaN`, and the packet is accepted.
nan_accepted :
    ((location (codes "Infinity")).lat ≡ nan)
    × (validate_normal_packet (location (codes "Infinity")) ≡ none)
unfolding normal_fields ddm_to_decimal validate_normal_packet has_15_digits all_digits equal
    parse_device_time trim ddm_units
nan_accepted = (refl, refl)

validate_normal_packet-IsAccepted_example :
    (validate_normal_packet (location (codes "1720.7174")) ≡ none)
    ↔ IsAccepted (location (codes "1720.7174"))
validate_normal_packet-IsAccepted_example =
    validate_normal_packet-IsAccepted (location (codes "1720.7174"))

abbrev a_line : NormalLine
a_line = record {
  header = codes "$10";
  imei = codes "865006049210220";
  gps_valid = codes "A";
  date = codes "010126";
  time = codes "000005";
  lat = codes "1720.7174";
  lat_dir = codes "N";
  lng = codes "07831.4323";
  lng_dir = codes "E";
  speed = codes "45";
  odo = codes "54321";
  dir = codes "180";
  sats = codes "12";
  gsm = codes "31";
  batt = codes "90";
  ign = codes "1";
  din2 = codes "0";
  din3 = codes "0";
  eng = codes "0";
  ain = codes "00.0000";
  fuel = codes "55.5";
  volt = codes "12.15";
}

a_line-IsFree : All (IsFree b',') (a_line.header ∷ (sent_fields a_line ++ codes "L#" ∷ []))
a_line-IsFree = all_lack-IsFree b',' (a_line.header ∷ (sent_fields a_line ++ codes "L#" ∷ [])) refl

parse_normal_packet-meant_example :
    let line = join b',' (a_line.header ∷ (sent_fields a_line ++ codes "L#" ∷ [])) in
    parse_normal_packet epoch line ≡ ok (meant epoch a_line (codes "L#" ∷ []) line)
parse_normal_packet-meant_example =
    parse_normal_packet-meant epoch a_line (codes "L#" ∷ []) a_line-IsFree

abbrev alert_text : Text
alert_text = codes "Ignition ON, engine started#"

abbrev two_chunks : List Bytes
two_chunks = codes "$10,a#$1" ∷ codes "1,b#" ∷ []

abbrev text_socket : TextSocket
text_socket = record { buffer = []; is_first_data = true; destroyed = false }

feed_text-packets_in_example :
    let (packets, last) = feed_text b'#' two_chunks text_socket in
    let (whole, rest) = packets_in b'#' (text_socket.buffer ++ all_text two_chunks) in
    (packets ≡ whole) × (last.buffer ≡ rest) × (last.destroyed ≡ text_socket.destroyed)
unfolding take_packets cut from_last_dollar ascii
feed_text-packets_in_example =
    feed_text-packets_in b'#' two_chunks text_socket refl (omega arith, (omega arith, tt)) refl

abbrev caps : Config
caps = record { port_cap = λ p. 2; per_imei_cap = 3 }

abbrev new_state : TextState
new_state = record {
  counts = record { ports = Map.empty; imeis = Map.empty };
  connected_devices = Map.empty;
  total_packets_parsed = 0;
  total_packets_invalid = 0;
  rejected_by_cap = 0;
  last_successful_packet_at = none;
}

abbrev line : Text
line = join b',' (codes "$10" ∷ fields (codes "1720.7174"))

process_packet-IsRefused_example :
    let (after, effects, promise) =
      process_packet caps epoch
        (codes "10.0.0.1:4000")
        1000
        (codes "$10" ∷ codes "$11" ∷ [])
        line
        new_state in
    IsRefused new_state (after, effects) × (promise ≡ rejected)
process_packet-IsRefused_example =
    process_packet-IsRefused caps epoch (codes "10.0.0.1:4000") 1000
      (codes "$10" ∷ codes "$11" ∷ []) line new_state
