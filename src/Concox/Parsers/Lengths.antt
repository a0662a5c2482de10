-- ===== src/Concox/Parsers/Lengths.antt =====
-- Which information contents the sub-parsers accept, and how they fail on the others.
use fueltracks.Prelude.{
  ℕ, zero, suc, ◌+◌, ◌*◌, ◌^◌, ◌≤◌, ◌<◌, ◌≡◌, refl, Bool, true, false, inl, inr, Option, none, some,
  [], ◌∷◌, length, get_elem?, ltb, ltb→lt, ◌==◌, Bool-cases, if◌then◌else◌, arith,
}
use fueltracks.Js.Buffer.{
  Bytes, Error, too_short, type_error, invalid_imei, Result, ok, err, byte, slice, read_u16_be-ok,
  read_u32_be-ok,
}
use fueltracks.Js.Text.{Text}
use fueltracks.Concox.Fields.{decode_imei, is_imei}
use fueltracks.Concox.Fields.Gps.{parse_gps_block-ok}
use fueltracks.Concox.Parsers.{
  parse_login, parse_heartbeat, parse_location, parse_alarm, mileage, alarm_tail, alarm_info_of,
  heartbeat_fields, to_km, or_null,
}

-- the exception of a call, if it throws one
abbrev pub thrown {ℓ} : {A : Type ℓ} → Result A → Option Error
thrown (ok a) = none
thrown (err e) = some e

-- what holds of the result of a call, if it returns one
abbrev pub Gives {ℓ κ} : {A : Type ℓ} → (A → Type κ) → Result A → Type κ
Gives P (ok a) = P a
Gives P (err e) = Unit

get_elem?-some : (info : Bytes) (i : ℕ) → i < length info → (b : ℕ) × (get_elem? info i ≡ some b)
get_elem?-some [] i h = absurd (omega arith)
get_elem?-some (b ∷ info) zero h = (b, refl)
get_elem?-some (b ∷ info) (suc i) h = get_elem?-some info i (omega (arith, h))

get_elem?-none : (info : Bytes) (i : ℕ) → length info ≤ i → get_elem? info i ≡ none
get_elem?-none [] i h = refl
get_elem?-none (b ∷ info) zero h = absurd (omega arith)
get_elem?-none (b ∷ info) (suc i) h = get_elem?-none info i (omega (arith, h))

at_least-length : (m n : ℕ) → ltb m n ≡ false → n ≤ m
at_least-length m n e = ground arith

mileage-ok : (info : Bytes) (at : ℕ) → (m : Option ℕ) × (mileage info at ≡ ok m)
unfolding mileage
mileage-ok info at = elim (Bool-cases (ltb (length info) (at + 4))) [
  | inl short ↦ (none, rw short refl)
  | inr long ↦ (
    some (
        to_km (
          byte info at * 2 ^ 24
          + byte info (at + 1) * 2 ^ 16
          + byte info (at + 2) * 2 ^ 8
          + byte info (at + 3))),
    rw (long, read_u32_be-ok info at (at_least-length (length info) (at + 4) long)) refl,
  )
]

pub parse_location-outcome :
    (date_parse : Text → Option ℕ) (info : Bytes) (serial : ℕ) (imei : Option Text)
    (packet_type : ℕ)
    → (thrown (parse_location date_parse info serial imei packet_type)
        ≡ (if ltb (length info) 29 then some too_short else none))
      × Gives (λ p. p.imei ≡ or_null imei) (parse_location date_parse info serial imei packet_type)
unfolding parse_location
parse_location-outcome date_parse info serial imei packet_type =
    elim (Bool-cases (ltb (length info) 29)) [
      | inl short ↦ rw short (refl, tt)
      | inr long ↦
          let room = at_least-length (length info) 29 long in
          let (odometer, reads) = mileage-ok info 29 in
          rw
            (
              long,
              parse_gps_block-ok info 6 (omega (arith, room)),
              read_u16_be-ok info 18 (omega (arith, room)),
              read_u16_be-ok info 21 (omega (arith, room)),
              reads,
            )
            (refl, refl)
    ]

alarm_tail-ok :
    (multi : Bool) (info : Bytes) → (t : Option ℕ × Option ℕ) × (alarm_tail multi info ≡ ok t)
unfolding alarm_tail
alarm_tail-ok true info = ((get_elem? info 32, get_elem? info 33), refl)
alarm_tail-ok false info =
    let (odometer, reads) = mileage-ok info 32 in ((none, odometer), rw reads refl)

alarm_info_of-none : alarm_info_of none ≡ err type_error
unfolding alarm_info_of
alarm_info_of-none = refl

alarm_info_of-some : (code : ℕ) → (a : _) × (alarm_info_of (some code) ≡ ok a)
unfolding alarm_info_of
alarm_info_of-some code = (_, refl)

pub parse_alarm-outcome :
    (date_parse : Text → Option ℕ) (info : Bytes) (serial : ℕ) (imei : Option Text) (multi : Bool)
    (packet_type : ℕ)
    → (thrown (parse_alarm date_parse info serial imei multi packet_type) ≡ (
        if ltb (length info) 26
        then some too_short
        else if ltb (length info) 31
        then some type_error
        else none))
      × Gives
          (λ p. p.imei ≡ or_null imei)
          (parse_alarm date_parse info serial imei multi packet_type)
unfolding parse_alarm
parse_alarm-outcome date_parse info serial imei multi packet_type =
    elim (Bool-cases (ltb (length info) 26)) [
      | inl short ↦ rw short (refl, tt)
      | inr long ↦
          let room = at_least-length (length info) 26 long in
          let (t, ends) = alarm_tail-ok multi info in
          let gps = parse_gps_block-ok info 6 (omega (arith, room)) in
          let mcc = read_u16_be-ok info 19 (omega (arith, room)) in
          let lac = read_u16_be-ok info 22 (omega (arith, room)) in
          elim (Bool-cases (ltb (length info) 31)) [
            | inl no_code ↦
                let missing =
                  get_elem?-none info 30 (omega (arith, ltb→lt (length info) 31 no_code)) in
                rw (long, no_code, gps, mcc, lac, missing, alarm_info_of-none) (refl, tt)
            | inr whole ↦
                let (code, found) =
                  get_elem?-some info 30 (at_least-length (length info) 31 whole) in
                let (a, known) = alarm_info_of-some code in
                rw (long, whole, gps, mcc, lac, found, known, ends) (refl, refl)
          ]
    ]

pub parse_heartbeat-outcome :
    (info : Bytes) (serial : ℕ) (imei : Option Text) (packet_type : ℕ)
    → (thrown (parse_heartbeat info serial imei packet_type) ≡ (
        if ltb (length info) (if packet_type == 0x23 then 4 else 5) then some too_short else none))
      × Gives (λ p. p.imei ≡ or_null imei) (parse_heartbeat info serial imei packet_type)
unfolding parse_heartbeat heartbeat_fields
parse_heartbeat-outcome info serial imei packet_type = elim (Bool-cases (packet_type == 0x23)) [
  | inl extended ↦ elim (Bool-cases (ltb (length info) 4)) [
    | inl short ↦ rw (extended, short) (refl, tt)
    | inr long ↦
        rw (extended, long, read_u16_be-ok info 2 (at_least-length (length info) 4 long))
          (refl, refl)
  ]
  | inr standard ↦ elim (Bool-cases (ltb (length info) 5)) [
    | inl short ↦ rw (standard, short) (refl, tt)
    | inr long ↦
        rw (standard, long, read_u16_be-ok info 3 (at_least-length (length info) 5 long))
          (refl, refl)
  ]
]

pub parse_login-outcome :
    (info : Bytes) (serial : ℕ)
    → (thrown (parse_login info serial) ≡ (
        if ltb (length info) 12
        then some too_short
        else if is_imei (decode_imei (slice 0 8 info))
        then none
        else some invalid_imei))
      × Gives (λ p. is_imei p.imei ≡ true) (parse_login info serial)
unfolding parse_login
parse_login-outcome info serial = elim (Bool-cases (ltb (length info) 12)) [
  | inl short ↦ rw short (refl, tt)
  | inr long ↦
      let room = at_least-length (length info) 12 long in
      let model = read_u16_be-ok info 8 (omega (arith, room)) in
      let zone = read_u16_be-ok info 10 (omega (arith, room)) in
      elim (Bool-cases (is_imei (decode_imei (slice 0 8 info)))) [
        | inl good ↦ rw (long, model, zone, good) (refl, good)
        | inr bad ↦ rw (long, model, zone, bad) (refl, tt)
      ]
]

-- The sub-parsers throw on exactly these information contents: a login of fewer than 12 bytes, or one
-- whose first eight bytes are no IMEI; a heartbeat of fewer than 4 (0x23) or 5 (all others) bytes; a
-- location of fewer than 29; an alarm of fewer than 26, and also one of 26 to 30 bytes, on which the
-- alarm code is missing and the call of its `toString` throws a `TypeError`.
pub parsers-thrown :
    (date_parse : Text → Option ℕ) (info : Bytes) (serial : ℕ) (imei : Option Text) (multi : Bool)
    (packet_type : ℕ)
    → (thrown (parse_login info serial) ≡ (
        if ltb (length info) 12
        then some too_short
        else if is_imei (decode_imei (slice 0 8 info))
        then none
        else some invalid_imei))
      × (thrown (parse_heartbeat info serial imei packet_type) ≡ (
          if ltb (length info) (if packet_type == 0x23 then 4 else 5)
          then some too_short
          else none))
      × (thrown (parse_location date_parse info serial imei packet_type)
          ≡ (if ltb (length info) 29 then some too_short else none))
      × (thrown (parse_alarm date_parse info serial imei multi packet_type) ≡ (
          if ltb (length info) 26
          then some too_short
          else if ltb (length info) 31
          then some type_error
          else none))
parsers-thrown date_parse info serial imei multi packet_type = (
  (parse_login-outcome info serial).0,
  (parse_heartbeat-outcome info serial imei packet_type).0,
  (parse_location-outcome date_parse info serial imei packet_type).0,
  (parse_alarm-outcome date_parse info serial imei multi packet_type).0,
)
