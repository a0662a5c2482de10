-- ===== src/Ascii/Router.antt =====
-- tcp-server/parser/index.js: `parsePacket`.
use fueltracks.Prelude.{ℕ, Option, none, some, if◌then◌else◌}
use fueltracks.Js.Buffer.{Result, ok, ◌>>=◌}
use fueltracks.Js.Text.{Text, codes, starts_with}
use fueltracks.Js.Strings.{trim}
use fueltracks.Ascii.{TextLocation, TextAlert, Emergency, LoginText, Health}
use fueltracks.Ascii.Bstpl.{parse_normal_packet, parse_alert_packet}
use fueltracks.Ascii.Ais140.{
  parse_ais140_normal_packet, parse_ais140_alert_packet, parse_ais140_emergency_packet,
  parse_ais140_login_packet, parse_ais140_health_packet,
}

-- The objects by their `packetType`: `$10`, `$11`, `$NRM`, `$ALT`, `$EPB`, `$LGN`, `$HLM`.
pub data TextPacket : Type 0 where
  normal ais140_normal : TextLocation → TextPacket
  alert ais140_alert : TextAlert → TextPacket
  emergency : Emergency → TextPacket
  text_login : LoginText → TextPacket
  health : Health → TextPacket

-- `none` is `null`, for an unknown type of packet.
unfoldable pub parse_packet : (Text → Option ℕ) → Text → Result (Option TextPacket)
unfolding starts_with
parse_packet date_parse raw =
    let trimmed = trim raw in
    if starts_with trimmed (codes "$10")
    then (do p ← parse_normal_packet date_parse trimmed; ok (some (normal p)))
    else if starts_with trimmed (codes "$11")
    then (do p ← parse_alert_packet date_parse trimmed; ok (some (alert p)))
    else if starts_with trimmed (codes "$NRM")
    then (do p ← parse_ais140_normal_packet date_parse trimmed; ok (some (ais140_normal p)))
    else if starts_with trimmed (codes "$ALT")
    then (do p ← parse_ais140_alert_packet date_parse trimmed; ok (some (ais140_alert p)))
    else if starts_with trimmed (codes "$EPB")
    then (do p ← parse_ais140_emergency_packet date_parse trimmed; ok (some (emergency p)))
    else if starts_with trimmed (codes "$LGN")
    then ok (some (text_login (parse_ais140_login_packet trimmed)))
    else if starts_with trimmed (codes "$HLM")
    then ok (some (health (parse_ais140_health_packet trimmed)))
    else ok none
