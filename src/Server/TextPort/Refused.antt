-- ===== src/Server/TextPort/Refused.antt =====
-- What becomes of the packets of the text ports.
use fueltracks.Prelude.{
  ℕ, ◌+◌, ◌<◌, ◌≡◌, refl, ap, ◌∙◌, false, inl, inr, Bool-cases, Option, none, some, List, [], ◌∷◌,
  get_or, arith,
}
use fueltracks.Js.Buffer.{Result, ok, err}
use fueltracks.Js.Text.{Text, codes, equal}
use fueltracks.Js.Strings.{trim, split}
use fueltracks.Concox.Fields.{all_digits}
use fueltracks.Ascii.{TextLocation, TextAlert, Emergency}
use fueltracks.Ascii.Router.{
  TextPacket, normal, ais140_normal, alert, ais140_alert, emergency, text_login, health,
  parse_packet,
}
use fueltracks.Ascii.Validator.{
  Reason, imei_invalid, gps_invalid, has_15_digits, validate_normal_packet, validate_alert_packet,
  validate_ais140_emergency_packet,
}
use fueltracks.Server.Caps.{Config, track_imei_socket}
use fueltracks.Server.TextPort.{
  TextState, TextEffect, rejected, member, process_location, process_alert, process_emergency,
  process_parsed, process_packet, text_imei,
}

blank-has_15_digits : has_15_digits [] ≡ false
unfolding has_15_digits all_digits
blank-has_15_digits = refl

no_imei : (imei : Text) → imei ≡ [] → has_15_digits imei ≡ false
no_imei imei e = ap has_15_digits e ∙ blank-has_15_digits

location-refused :
    (p : TextLocation) → p.imei ≡ [] → (r : Reason) × (validate_normal_packet p ≡ some r)
unfolding validate_normal_packet
location-refused p e = elim (Bool-cases (equal p.gps_valid (codes "A"))) [
  | inl fix ↦ (imei_invalid, rw (fix, no_imei p.imei e) refl)
  | inr void ↦ (gps_invalid, rw void refl)
]

alert-refused : (p : TextAlert) → p.imei ≡ [] → validate_alert_packet p ≡ some imei_invalid
unfolding validate_alert_packet
alert-refused p e = rw (no_imei p.imei e) refl

emergency-refused :
    (p : Emergency) → p.location.imei ≡ [] → validate_ais140_emergency_packet p ≡ some imei_invalid
unfolding validate_ais140_emergency_packet
emergency-refused p e = rw (no_imei p.location.imei e) refl

-- Nothing is published, and the packet is counted once or twice.
abbrev pub IsRefused : TextState → TextState × List TextEffect → Type 0
IsRefused s r =
    (r.1 ≡ [])
    × (s.total_packets_parsed + s.total_packets_invalid
        < r.0.total_packets_parsed + r.0.total_packets_invalid)

location-IsRefused :
    (client_id : Text) (now : ℕ) (p : TextLocation) (s : TextState)
    → p.imei ≡ []
    → IsRefused s (process_location client_id now p s)
unfolding process_location
location-IsRefused client_id now p s e =
    rw (process_location, (location-refused p e).1) (refl, omega arith)

alert-IsRefused :
    (now : ℕ) (p : TextAlert) (s : TextState) → p.imei ≡ [] → IsRefused s (process_alert now p s)
unfolding process_alert
alert-IsRefused now p s e = rw (process_alert, alert-refused p e) (refl, omega arith)

emergency-IsRefused :
    (client_id : Text) (now : ℕ) (p : Emergency) (s : TextState)
    → p.location.imei ≡ []
    → IsRefused s (process_emergency client_id now p s)
unfolding process_emergency
emergency-IsRefused client_id now p s e =
    rw (process_emergency, emergency-refused p e) (refl, omega arith)

parsed-IsRefused :
    (config : Config) (client_id : Text) (now : ℕ) (p : TextPacket) (imei : Text) (s : TextState)
    → text_imei p ≡ imei
    → IsRefused s (process_parsed config client_id now p imei s)
unfolding process_parsed
parsed-IsRefused config client_id now (normal p) [] s e = location-IsRefused client_id now p s e
parsed-IsRefused config client_id now (ais140_normal p) [] s e =
    location-IsRefused client_id now p s e
parsed-IsRefused config client_id now (alert p) [] s e = alert-IsRefused now p s e
parsed-IsRefused config client_id now (ais140_alert p) [] s e = alert-IsRefused now p s e
parsed-IsRefused config client_id now (emergency p) [] s e = emergency-IsRefused client_id now p s e
parsed-IsRefused config client_id now (text_login p) [] s e = (refl, omega arith)
parsed-IsRefused config client_id now (health p) [] s e = (refl, omega arith)
parsed-IsRefused config client_id now p (c ∷ cs) s e =
    elim (Bool-cases (track_imei_socket config s.counts (c ∷ cs)).0) [
      | inl accepted ↦ rw accepted (refl, omega arith)
      | inr capped ↦ rw capped (refl, omega arith)
    ]

result-IsRefused :
    (config : Config) (client_id : Text) (now : ℕ) (r : Result (Option TextPacket)) (s : TextState)
    → IsRefused s (elim r [
      | err e ↦ (record s { total_packets_invalid = s.total_packets_invalid + 1 }, [])
      | ok none ↦ (record s { total_packets_invalid = s.total_packets_invalid + 1 }, [])
      | ok (some packet) ↦ process_parsed config client_id now packet (text_imei packet) s
    ])
result-IsRefused config client_id now (err e) s = (refl, omega arith)
result-IsRefused config client_id now (ok none) s = (refl, omega arith)
result-IsRefused config client_id now (ok (some packet)) s =
    parsed-IsRefused config client_id now packet (text_imei packet) s refl

-- Whatever text a device sends to a BSTPL-17 or AIS140 port, the server publishes nothing of it: the
-- packet is counted as parsed or invalid, and the promise of `processPacket` is rejected.
pub process_packet-IsRefused :
    (config : Config) (date_parse : Text → Option ℕ) (client_id : Text) (now : ℕ)
    (allowed_headers : List Text) (raw : Text) (s : TextState)
    → let (after, effects, promise) =
        process_packet config date_parse client_id now allowed_headers raw s in
      IsRefused s (after, effects) × (promise ≡ rejected)
unfolding process_packet
process_packet-IsRefused config date_parse client_id now allowed_headers raw s =
    elim (Bool-cases (member (trim (get_or (split b',' raw) 0 [])) allowed_headers)) [
      | inl allowed ↦
          (rw allowed (result-IsRefused config client_id now (parse_packet date_parse raw) s), refl)
      | inr other ↦ (rw other (refl, omega arith), refl)
    ]
