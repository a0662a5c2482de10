-- ===== src/Server/Session/Handlers.antt =====
-- What one step of the Concox port publishes, and what it keeps: for whom, and where.
use fueltracks.Prelude.{
  ℕ, ◌≤◌, ◌≡◌, refl, Bool, true, false, not, ◌&&◌, Bool-cases, inl, inr, Option, none, some, List,
  [], ◌∷◌, ◌++◌, All, All-append, length, leb, ltb, arith,
}
use fueltracks.Prelude.Int.{ℤ, nat_abs}
use fueltracks.Js.Buffer.{Bytes}
use fueltracks.Js.Text.{Text}
use fueltracks.Concox.Fields.{is_imei}
use fueltracks.Concox.Packets.{
  login, heartbeat, location, alarm, info, time_check, command_response, online_command, Alarm,
  Packet, framed, ascii_message,
}
use fueltracks.Concox.Parsers.{or_null}
use fueltracks.Concox.Frames.{parse_concox_buffer}
use fueltracks.Concox.Frames.Remainder.{parse-length}
use fueltracks.Concox.Frames.Imeis.{or_null-IsKnown, IsKnown, IsSound, parse_concox_buffer-IsSound}
use fueltracks.Server.Session.{
  Server, Effect, wrote, raw_message, published_location, published_alert, Phase, idle,
  published_raw, alarmed, located, Handler, Progress, is_fixed, out_of_range, packet_imei, or_else,
  raw_effect,
}
use fueltracks.Server.Session.Process.{
  process_concox_packet, process_alarm_position, advance, Socket, on_data,
}
use fueltracks.Server.Session.System.{next_handler}

ltb-le : (m n : ℕ) → ltb m n ≡ false → n ≤ m
ltb-le m n e = ground arith

-- There is an IMEI, of 14 to 16 digits.
abbrev pub HasImei : Option Text → Type 0
HasImei o = (imei : Text) × (o ≡ some imei) × (is_imei imei ≡ true)

-- What may be published: messages of IMEIs only, and positions on the globe.
abbrev pub IsPublishable : Effect → Type 0
IsPublishable (wrote bytes) = Unit
IsPublishable (raw_message imei p) = is_imei imei ≡ true
IsPublishable (published_location x) =
    HasImei x.imei × (nat_abs x.lat ≤ 900000000) × (nat_abs x.lng ≤ 1800000000)
IsPublishable (published_alert a) = HasImei a.imei

abbrev pub IsSoundPhase : Option Text → Phase → Type 0
IsSoundPhase session idle = Unit
IsSoundPhase session (published_raw p) = IsSound p
IsSoundPhase session (alarmed a) = HasImei session
IsSoundPhase session located = Unit

abbrev pub IsSoundHandler : Option Text → Handler → Type 0
IsSoundHandler session h = IsSoundPhase session h.phase × All IsSound h.queue

-- A step keeps the session's IMEI or logs in another, goes on soundly and publishes soundly.
abbrev pub SoundProgress : Option Text → Progress → Type 0
SoundProgress session r =
    IsKnown r.session_imei
    × (HasImei session → HasImei r.session_imei)
    × IsSoundHandler r.session_imei (next_handler r)
    × All IsPublishable r.effects

logged_in : (imei : Text) → is_imei imei ≡ true → or_null (some imei) ≡ some imei
unfolding or_null is_imei
logged_in [] e = cc
logged_in (c ∷ s) e = refl

known-HasImei : (imei : Text) → IsKnown (some imei) → HasImei (some imei)
known-HasImei imei k = (imei, refl, k)

within-range :
    (lat lng : ℤ)
    → out_of_range lat lng ≡ false
    → (nat_abs lat ≤ 900000000) × (nat_abs lng ≤ 1800000000)
within-range lat lng e = ground arith

process_sound :
    (client_id : Text) (now : ℕ) (p : Packet) (queue : List Packet) (session : Option Text)
    (v : Server)
    → IsKnown session
    → IsSound p
    → All IsSound queue
    → SoundProgress session (process_concox_packet client_id now p queue session v)
unfolding process_concox_packet
process_sound client_id now (framed (login p) raw) queue session v known s q =
    let e = logged_in p.imei s in rw e (s, (λ _. (p.imei, refl, s)), (tt, q), (tt, tt))
process_sound client_id now (framed (heartbeat p) raw) queue session v known s q =
    (known, (λ h. h), (tt, q), (tt, tt))
process_sound client_id now (framed (location p) raw) queue none v known s q =
    (tt, (λ h. h), (tt, q), tt)
process_sound client_id now (framed (location p) raw) queue (some imei) v known s q =
    elim (Bool-cases (is_fixed p.gps_valid)) [
      | inl fixed ↦ elim (Bool-cases (out_of_range p.lat p.lng)) [
        | inl out ↦ rw (fixed, out) (known, (λ h. h), (tt, q), tt)
        | inr within ↦
            let (lat, lng) = within-range p.lat p.lng within in
            rw (fixed, within)
              (known, (λ h. h), (tt, q), ((known-HasImei imei known, lat, lng), tt))
      ]
      | inr void ↦ rw void (known, (λ h. h), (tt, q), tt)
    ]
process_sound client_id now (framed (alarm p) raw) queue none v known s q =
    (tt, (λ h. h), (tt, q), tt)
process_sound client_id now (framed (alarm p) raw) queue (some imei) v known s q =
    (known, (λ h. h), (known-HasImei imei known, q), (tt, (known-HasImei imei known, tt)))
process_sound client_id now (framed (info p) raw) queue session v known s q =
    (known, (λ h. h), (tt, q), tt)
process_sound client_id now (framed (time_check p) raw) queue session v known s q =
    (known, (λ h. h), (tt, q), tt)
process_sound client_id now (framed (command_response p) raw) queue session v known s q =
    (known, (λ h. h), (tt, q), tt)
process_sound client_id now (framed (online_command p) raw) queue session v known s q =
    (known, (λ h. h), (tt, q), tt)
process_sound client_id now (ascii_message t) queue session v known s q =
    (known, (λ h. h), (tt, q), tt)

alarm_position_sound :
    (now : ℕ) (p : Alarm) (queue : List Packet) (session : Option Text) (v : Server)
    → IsKnown session
    → HasImei session
    → All IsSound queue
    → SoundProgress session (process_alarm_position now p queue session v)
unfolding process_alarm_position
alarm_position_sound now p queue session v known has q =
    elim (Bool-cases (out_of_range p.lat p.lng)) [
      | inl out ↦ elim (Bool-cases (is_fixed p.gps_valid)) [
        | inl fixed ↦ rw (fixed, out) (known, (λ h. h), (tt, q), tt)
        | inr void ↦ rw void (known, (λ h. h), (tt, q), tt)
      ]
      | inr within ↦
          let (lat, lng) = within-range p.lat p.lng within in
          elim (Bool-cases (is_fixed p.gps_valid)) [
            | inl fixed ↦ rw (fixed, within) (known, (λ h. h), (tt, q), ((has, lat, lng), tt))
            | inr void ↦ rw void (known, (λ h. h), (tt, q), tt)
          ]
    ]

packet_imei-IsKnown : (p : Packet) → IsSound p → IsKnown (packet_imei p)
unfolding packet_imei
packet_imei-IsKnown (framed (login p) raw) s = or_null-IsKnown (some p.imei) s
packet_imei-IsKnown (framed (heartbeat p) raw) s = s
packet_imei-IsKnown (framed (location p) raw) s = s
packet_imei-IsKnown (framed (alarm p) raw) s = s
packet_imei-IsKnown (framed (info p) raw) s = s
packet_imei-IsKnown (framed (time_check p) raw) s = s
packet_imei-IsKnown (framed (command_response p) raw) s = s
packet_imei-IsKnown (framed (online_command p) raw) s = s
packet_imei-IsKnown (ascii_message t) s = tt

raw-IsPublishable :
    (p : Packet) (own session : Option Text)
    → IsKnown own
    → IsKnown session
    → All IsPublishable (raw_effect (or_else own session) p)
unfolding or_else
raw-IsPublishable p none none k l = tt
raw-IsPublishable p none (some imei) k l = (l, tt)
raw-IsPublishable p (some imei) session k l = (k, tt)

pub advance_sound :
    (client_id : Text) (now : ℕ) (resolved : Bool) (h : Handler) (session : Option Text)
    (v : Server)
    → IsKnown session
    → IsSoundHandler session h
    → SoundProgress session (advance client_id now resolved h session v)
unfolding advance
advance_sound client_id now resolved h session v known (s, q) = go resolved h.phase h.queue s q
  where
    go :
        (b : Bool) (phase : Phase) (queue : List Packet)
        → IsSoundPhase session phase
        → All IsSound queue
        → SoundProgress session
            (advance client_id now b (record { phase = phase; queue = queue }) session v)
    go b idle [] s q = (known, (λ h. h), (tt, tt), tt)
    go b idle (p ∷ queue) s (sp, q) = (
      known,
      (λ h. h),
      (sp, q),
      raw-IsPublishable p (packet_imei p) session (packet_imei-IsKnown p sp) known,
    )
    go b (published_raw p) queue s q = process_sound client_id now p queue session v known s q
    go true (alarmed a) queue s q = alarm_position_sound now a queue session v known s q
    go false (alarmed a) queue s q = (known, (λ h. h), (tt, q), tt)
    go true located queue s q = (known, (λ h. h), (tt, q), tt)
    go false located queue s q = (known, (λ h. h), (tt, q), tt)

-- A socket of the port: its session's IMEI is one, its handlers are sound for it, and its buffer is
-- within the limit.
abbrev pub IsSoundSocket : Socket → Type 0
IsSoundSocket s =
    IsKnown s.session_imei
    × All (IsSoundHandler s.session_imei) s.handlers
    × (length s.buffer ≤ 10240)

pub handlers_sound :
    (session session' : Option Text) (hs : List Handler)
    → (HasImei session → HasImei session')
    → All (IsSoundHandler session) hs
    → All (IsSoundHandler session') hs
handlers_sound session session' [] f a = tt
handlers_sound session session' (h ∷ hs) f ((s, q), a) =
    ((phase-sound h.phase s, q), handlers_sound session session' hs f a)
  where
    phase-sound : (p : Phase) → IsSoundPhase session p → IsSoundPhase session' p
    phase-sound idle s = s
    phase-sound (published_raw p) s = s
    phase-sound (alarmed a) s = f s
    phase-sound located s = s

pub on_data_sound :
    (date_parse : Text → Option ℕ) (high_water : ℕ) (chunk : Bytes) (s : Socket) (v : Server)
    → IsSoundSocket s
    → IsSoundSocket (on_data date_parse high_water chunk s v).0
unfolding on_data
on_data_sound date_parse high_water chunk s v (known, hs, small) =
    let buffer = s.buffer ++ chunk in
    let result = parse_concox_buffer date_parse s.session_imei buffer in
    let packets = parse_concox_buffer-IsSound date_parse s.session_imei known buffer in
    elim (Bool-cases (not s.paused && leb high_water s.pending)) [
      | inl stops ↦ rw stops (known, hs, small)
      | inr goes ↦ elim (Bool-cases s.paused) [
        | inl paused ↦ rw (goes, paused) (known, hs, small)
        | inr reads ↦ elim (Bool-cases (ltb 10240 (length buffer))) [
          | inl full ↦ rw (goes, reads, full) (known, hs, omega arith)
          | inr fits ↦
              let bound = parse-length date_parse s.session_imei buffer in
              rw (goes, reads, fits)
                (
                  known,
                  All-append (IsSoundHandler s.session_imei) s.handlers
                      (record { phase = idle; queue = result.packets } ∷ []) hs ((tt, packets), tt),
                  omega (arith, bound, ltb-le 10240 (length buffer) fits),
                )
        ]
      ]
    ]
