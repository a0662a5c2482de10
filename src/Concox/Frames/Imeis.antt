-- ===== src/Concox/Frames/Imeis.antt =====
-- The IMEIs of the packets that `parseConcoxBuffer` returns.
use fueltracks.Prelude.{
  ℕ, zero, suc, ◌≡◌, refl, sym, subst, Bool, true, false, ◌||◌, Option, none, some, [], ◌∷◌, All,
  All-append, length, drop, ◌==◌, if◌then◌else◌,
}
use fueltracks.Js.Buffer.{Bytes, Result, ok, err, ◌>>=◌}
use fueltracks.Js.Text.{Text}
use fueltracks.Concox.Fields.{is_imei}
use fueltracks.Concox.Packets.{
  Body, login, heartbeat, location, alarm, info, time_check, command_response, online_command,
  Packet, framed, ascii_message,
}
use fueltracks.Concox.Parsers.{or_null, parse_login, parse_heartbeat, parse_location, parse_alarm}
use fueltracks.Concox.Parsers.Info.{parse_info_transmission}
use fueltracks.Concox.Parsers.Lengths.{
  Gives, parse_login-outcome, parse_heartbeat-outcome, parse_location-outcome, parse_alarm-outcome,
}
use fueltracks.Concox.Frames.Progress.{continue, loop-continue}
use fueltracks.Concox.Frames.{
  bare, dispatch, packets_of, Round, wait, skip, text, frame, round, Parsed, parse_loop,
  parse_concox_buffer,
}

-- the IMEI is missing, or it is one
abbrev pub IsKnown : Option Text → Type 0
IsKnown none = Unit
IsKnown (some imei) = is_imei imei ≡ true

abbrev pub IsSoundBody : Body → Type 0
IsSoundBody (login p) = is_imei p.imei ≡ true
IsSoundBody (heartbeat p) = IsKnown (or_null p.imei)
IsSoundBody (location p) = IsKnown (or_null p.imei)
IsSoundBody (alarm p) = IsKnown (or_null p.imei)
IsSoundBody (info p) = IsKnown (or_null p.imei)
IsSoundBody (time_check p) = IsKnown (or_null p.imei)
IsSoundBody (command_response p) = IsKnown (or_null p.imei)
IsSoundBody (online_command p) = IsKnown (or_null p.imei)

abbrev pub IsSound : Packet → Type 0
IsSound (framed body raw) = IsSoundBody body
IsSound (ascii_message s) = Unit

abbrev IsSoundOption : Option Body → Type 0
IsSoundOption none = Unit
IsSoundOption (some body) = IsSoundBody body

pub or_null-IsKnown : (imei : Option Text) → IsKnown imei → IsKnown (or_null imei)
unfolding or_null
or_null-IsKnown none k = tt
or_null-IsKnown (some []) k = tt
or_null-IsKnown (some (c ∷ s)) k = k

Gives-packet :
    {A : Type 0} (P : A → Type 0) (c : A → Body) (r : Result A)
    → Gives P r
    → ((a : A) → P a → IsSoundBody (c a))
    → Gives IsSoundOption (r >>= λ p. ok (some (c p)))
Gives-packet P c (ok a) g h = h a g
Gives-packet P c (err e) g h = tt

Gives-if :
    (b : Bool) (x y : Result (Option Body))
    → Gives IsSoundOption x
    → Gives IsSoundOption y
    → Gives IsSoundOption (if b then x else y)
Gives-if true x y p q = p
Gives-if false x y p q = q

module _ (date_parse : Text → Option ℕ) (imei : Option Text) (known : IsKnown imei) where
  nulled : (o : Option Text) → o ≡ or_null imei → IsKnown (or_null o)
  nulled o e =
      subst (λ t. IsKnown (or_null t)) (sym e)
        (or_null-IsKnown (or_null imei) (or_null-IsKnown imei known))

  dispatch_sound :
      (protocol : ℕ) (content : Bytes) (serial : ℕ)
      → Gives IsSoundOption (dispatch date_parse imei protocol content serial)
  unfolding dispatch parse_info_transmission bare
  dispatch_sound protocol content serial =
      Gives-if (protocol == 0x01) _ _
        (Gives-packet (λ p. is_imei p.imei ≡ true) login (parse_login content serial)
          (parse_login-outcome content serial).1 (λ a h. h))
        (Gives-if (protocol == 0x13 || protocol == 0x23) _ _
          (Gives-packet (λ p. p.imei ≡ or_null imei) heartbeat
            (parse_heartbeat content serial imei protocol)
            (parse_heartbeat-outcome content serial imei protocol).1 (λ a h. nulled a.imei h))
          (Gives-if (protocol == 0x12 || protocol == 0x22) _ _
            (Gives-packet (λ p. p.imei ≡ or_null imei) location
              (parse_location date_parse content serial imei protocol)
              (parse_location-outcome date_parse content serial imei protocol).1
              (λ a h. nulled a.imei h))
            (Gives-if (protocol == 0x16 || protocol == 0x26) _ _
              (Gives-packet (λ p. p.imei ≡ or_null imei) alarm
                (parse_alarm date_parse content serial imei false protocol)
                (parse_alarm-outcome date_parse content serial imei false protocol).1
                (λ a h. nulled a.imei h))
              (Gives-if (protocol == 0x27) _ _
                (Gives-packet (λ p. p.imei ≡ or_null imei) alarm
                  (parse_alarm date_parse content serial imei true protocol)
                  (parse_alarm-outcome date_parse content serial imei true protocol).1
                  (λ a h. nulled a.imei h))
                (Gives-if (protocol == 0x94) _ _ (nulled (or_null imei) refl) (
                  Gives-if (protocol == 0x8a) _ _ (nulled (or_null imei) refl) (
                    Gives-if (protocol == 0x21) _ _ (nulled (or_null imei) refl)
                      (Gives-if (protocol == 0x80) _ _ (nulled (or_null imei) refl) tt))))))))

  packets_of-IsSound :
      (r : Result (Option Body)) (raw : Bytes)
      → Gives IsSoundOption r
      → All IsSound (packets_of r raw)
  unfolding packets_of
  packets_of-IsSound (ok (some body)) raw g = (g, tt)
  packets_of-IsSound (ok none) raw g = tt
  packets_of-IsSound (err e) raw g = tt

  continue-IsSound :
      (fuel : ℕ) (rest : Bytes)
      → ((n : ℕ) → All IsSound (parse_loop date_parse imei fuel (drop n rest)).packets)
      → (r : Round) → All IsSound (continue date_parse imei fuel rest r).packets
  continue-IsSound fuel rest ih wait = tt
  continue-IsSound fuel rest ih skip = ih 1
  continue-IsSound fuel rest ih (text s n) = (tt, ih n)
  continue-IsSound fuel rest ih (frame f) =
      let own = packets_of (dispatch date_parse imei f.protocol f.content f.serial) f.raw in
      All-append IsSound own (parse_loop date_parse imei fuel (drop f.size rest)).packets
        (packets_of-IsSound (dispatch date_parse imei f.protocol f.content f.serial) f.raw
          (dispatch_sound f.protocol f.content f.serial))
        (ih f.size)

  loop-IsSound :
      (fuel : ℕ) (rest : Bytes) → All IsSound (parse_loop date_parse imei fuel rest).packets
  loop-IsSound zero rest = unfold parse_loop in tt
  loop-IsSound (suc fuel) rest =
      subst (λ (r : Parsed). All IsSound r.packets) (sym (loop-continue date_parse imei fuel rest))
        (continue-IsSound fuel rest (λ n. loop-IsSound fuel (drop n rest)) (round rest))

  -- A packet that the parser returns for a session whose IMEI, if it has one, has 14 to 16 digits, has
  -- no IMEI or one of 14 to 16 digits, and a login has one.
  pub parse_concox_buffer-IsSound :
      (buffer : Bytes) → All IsSound (parse_concox_buffer date_parse imei buffer).packets
  unfolding parse_concox_buffer
  parse_concox_buffer-IsSound buffer = loop-IsSound (length buffer) buffer
