-- ===== src/Backend/Alerts.antt =====
-- backend/subscribers/alertSubscriber.js with `dispatchAlert` of backend/services/notificationService.js.
pub mod Delivered
use fueltracks.Prelude.{
  ℕ, zero, suc, ◌+◌, ◌-◌, Bool, true, false, ◌&&◌, not, Option, none, some, List, [], ◌∷◌, ◌++◌,
  map, leb, if◌then◌else◌,
}
use fueltracks.Js.Text.{Text, codes}
use fueltracks.Writer.{Json, text, Vehicle}
use fueltracks.Writer.Vehicles.{
  Hash, Found, Resolution, resolved, unregistered, thrown, of_hash, of_database,
}
use fueltracks.Backend.Sockets.{spelled}

-- The fields of an entry's `data`.
pub record AlertMessage : Type 0 where
  pub imei : Json
  pub alert_type : Json
  pub alert_text : Json
  pub lat : Json
  pub lng : Json
  pub device_time : Json

-- An entry; its message is `none` where `JSON.parse` throws or gives `null`.
pub record AlertEntry : Type 0 where
  pub id : Text
  pub message : Option AlertMessage

-- `resolveVehicle`: the hash, empty where Redis has none or fails, must give the id and the
-- organization; what is written to the hash comes second.
unfoldable pub resolve_alert : Hash → Found → Resolution × Option Hash
resolve_alert h found = elim h.id [
  | [] ↦ of_database found
  | c ∷ s ↦ elim h.org_id [ [] ↦ of_database found | d ∷ t ↦ (resolved (of_hash h), none) ]
]

-- The columns of an organization's profile that say where alerts go.
pub record Profile : Type 0 where
  pub email_enabled : Bool
  pub email : Text
  pub whatsapp_enabled : Bool
  pub mobile : Text

-- A message that is sent; sending it never throws. An email also has a second part in HTML.
pub data Notice : Type 0 where
  email_notice : Text → Text → Text → Notice
  whatsapp_notice : Text → Text → Notice

-- `toUpperCase`; the alert types are ASCII.
unfoldable pub upper_letter : ℕ → ℕ
upper_letter c = if leb b'a' c && leb c b'z' then c - 32 else c

unfoldable pub to_upper : Text → Text
to_upper s = map upper_letter s

unfoldable pub or_null_text : Option Text → Text
or_null_text none = codes "null"
or_null_text (some s) = s

unfoldable pub alert_subject : Text → Vehicle → Text
unfolding to_upper or_null_text
alert_subject alert_type v =
    codes "[Alert] "
    ++ to_upper alert_type
    ++ codes " - "
    ++ or_null_text v.name
    ++ codes " ("
    ++ or_null_text v.plate
    ++ codes ")"

-- `time` is `new Date().toLocaleString()`.
unfoldable pub alert_body : Text → Text → Json → Json → Vehicle → Text
alert_body time alert_type alert_text imei v =
    codes "Alert Type: "
    ++ alert_type
    ++ codes "\nVehicle: "
    ++ or_null_text v.name
    ++ codes "\nPlate: "
    ++ or_null_text v.plate
    ++ codes "\nIMEI: "
    ++ spelled imei
    ++ codes "\nDetails: "
    ++ spelled alert_text
    ++ codes "\nTime: "
    ++ time

unfoldable pub whatsapp_text : Text → Json → Vehicle → Text
whatsapp_text alert_type alert_text v =
    0x26a0 ∷ 0xfe0f ∷ codes " *FuelTracks Alert*:\n*Type*: "
    ++ to_upper alert_type
    ++ codes "\n*Vehicle*: "
    ++ or_null_text v.name
    ++ codes " ("
    ++ or_null_text v.plate
    ++ codes ")\n*Details*: "
    ++ spelled alert_text

unfoldable pub is_given : Text → Bool
is_given [] = false
is_given (c ∷ s) = true

unfoldable pub notice_if : Bool → Notice → List Notice
notice_if true notice = notice ∷ []
notice_if false notice = []

-- It throws where the type is no text.
unfoldable pub dispatch_alert : Text → Profile → AlertMessage → Vehicle → List Notice
dispatch_alert time p m v = elim m.alert_type [
  | text alert_type ↦
      notice_if (p.email_enabled && is_given p.email) (
        email_notice p.email (alert_subject alert_type v)
          (alert_body time alert_type m.alert_text m.imei v))
      ++ notice_if (p.whatsapp_enabled && is_given p.mobile)
          (whatsapp_notice p.mobile (whatsapp_text alert_type m.alert_text v))
  | _ ↦ []
]

pub data AlertEffect : Type 0 where
  warn_unregistered : AlertMessage → AlertEffect
  save_alert : Text → AlertMessage → AlertEffect
  notify : Notice → AlertEffect
  alert_to_vehicle : Text → AlertMessage → AlertEffect
  alert_to_org : Text → AlertMessage → AlertEffect

-- How the calls for an entry end; the profile is `none` where there is none or the query fails.
pub record AlertAnswers : Type 0 where
  pub resolution : Resolution
  pub saved : Bool
  pub profile : Option Profile
  pub time : Text

unfoldable pub notices : AlertAnswers → AlertMessage → Vehicle → List AlertEffect
notices a m v = elim a.profile [ none ↦ [] | some p ↦ map notify (dispatch_alert a.time p m v) ]

unfoldable pub broadcast : Bool → AlertMessage → Vehicle → List AlertEffect
broadcast false m v = []
broadcast true m v = alert_to_vehicle v.vehicle_id m ∷ alert_to_org v.org_id m ∷ []

-- Whether the entry is pushed to `acked`, and what happens outside.
unfoldable pub process_registered :
    Bool → AlertAnswers → AlertMessage → Vehicle → Bool × List AlertEffect
process_registered has_io a m v =
    if a.saved
    then (true, save_alert v.vehicle_id m ∷ (notices a m v ++ broadcast has_io m v))
    else (false, [])

unfoldable pub process_alert_entry :
    Bool → AlertAnswers → Option AlertMessage → Bool × List AlertEffect
process_alert_entry has_io a none = (false, [])
process_alert_entry has_io a (some m) = elim a.resolution [
  | resolved v ↦ process_registered has_io a m v
  | unregistered ↦ (true, warn_unregistered m ∷ [])
  | thrown ↦ (false, [])
]

-- `processBatch`: the entries that it does not return, the ids that it does, and all effects. The ids
-- of a stream are distinct.
pub record AlertRound : Type 0 where
  pub left : List AlertEntry
  pub acked : List Text
  pub effects : List AlertEffect

unfoldable pub put_entry : AlertEntry → Bool × List AlertEffect → AlertRound → AlertRound
put_entry e (true, effects) r = record {
  left = r.left;
  acked = e.id ∷ r.acked;
  effects = effects ++ r.effects;
}
put_entry e (false, effects) r = record {
  left = e ∷ r.left;
  acked = r.acked;
  effects = effects ++ r.effects;
}

unfoldable pub process_alerts : Bool → (AlertEntry → AlertAnswers) → List AlertEntry → AlertRound
process_alerts has_io answers [] = record { left = []; acked = []; effects = [] }
process_alerts has_io answers (e ∷ entries) =
    put_entry e (process_alert_entry has_io (answers e) e.message)
      (process_alerts has_io answers entries)

-- How a batch ends: the calls for its entries, and whether its `XACK` succeeds.
pub record Attempt : Type 0 where
  pub answers : AlertEntry → AlertAnswers
  pub xack : Bool

-- `onBatch` and then `ack` in their `try` block: where `XACK` fails all entries stay pending.
unfoldable pub attempt : Bool → Attempt → List AlertEntry → AlertRound
attempt has_io a entries =
    let r = process_alerts has_io a.answers entries in
    if a.xack then r else record r { left = entries; acked = [] }

-- The pending entries come again at each start, with other answers.
unfoldable pub restarts : Bool → List Attempt → List AlertEntry → AlertRound
restarts has_io [] entries = record { left = entries; acked = []; effects = [] }
restarts has_io (a ∷ later) entries =
    let first = attempt has_io a entries in
    let rest = restarts has_io later first.left in
    record {
      left = rest.left;
      acked = first.acked ++ rest.acked;
      effects = first.effects ++ rest.effects;
    }
