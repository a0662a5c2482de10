-- ===== src/Backend/Location/Published.antt =====
-- The subscriber compares a packet with the state that the publisher wrote for the same packet.
use fueltracks.Prelude.{
  ℕ, ◌+◌, ◌*◌, ◌<◌, ◌≡◌, refl, Bool, true, false, Option, none, some, List, [], ◌∷◌, map, All,
  All-append, arith, Bool-cases, ◌⊎◌, inl, inr,
}
use fueltracks.Js.Text.{Text}
use fueltracks.Js.Map
use fueltracks.Js.Map.{Map, get-set, equal_refl}
use fueltracks.Writer.{Vehicle}
use fueltracks.Writer.Vehicles.{Resolution, resolved, unregistered, thrown}
use fueltracks.Backend.Location.Alerts.{
  Report, Alert, ignition_on, trip_started, stoppage, excessive_idle, transition_alerts, Key, read,
  IdleKeys, is_idling, idle_step, fire_idle,
}
use fueltracks.Backend.Location.Entry.{
  Geofence, Keys, Effect, send_alert, publish_location, Answers, Within, fence_alert,
  check_geofences, or_no_geofences, idle_keys_of, check_alerts, emitted, process_live,
  process_report, process_resolved, process_entry,
}

-- A change of the ignition or of the movement.
abbrev is_transition : Alert → Bool
is_transition ignition_on = true
is_transition trip_started = true
is_transition stoppage = true
is_transition _ = false

abbrev Steady : Alert → Type 0
Steady alert = is_transition alert ≡ false

abbrev pub NoTransition : Effect → Type 0
NoTransition (send_alert imei alert) = Steady alert
NoTransition _ = Unit {0}

transition_alerts_self : (r : Report) → transition_alerts (some r) r ≡ []
unfolding transition_alerts
transition_alerts_self r = ground arith

idle_step-cases :
    (now : ℕ) (idling : Bool) (keys : IdleKeys)
    → ((idle_step now idling keys).1 ≡ []) ⊎ ((idle_step now idling keys).1 ≡ excessive_idle ∷ [])
unfolding idle_step fire_idle
idle_step-cases now idling keys = ground arith

idle_step-Steady :
    (now : ℕ) (idling : Bool) (keys : IdleKeys) → All Steady (idle_step now idling keys).1
idle_step-Steady now idling keys = elim (idle_step-cases now idling keys) [
  | inl quiet ↦ rw quiet tt
  | inr idle ↦ rw idle (refl, tt)
]

fence_alert-Steady : (name : Text) (b : Option Bool) → All Steady (fence_alert name b)
unfolding fence_alert
fence_alert-Steady name none = tt
fence_alert-Steady name (some true) = (refl, tt)
fence_alert-Steady name (some false) = (refl, tt)

check_geofences-Steady :
    (within : Within) (now : ℕ) (vehicle_id : Text) (r : Report) (geofences : List Geofence)
    (fences : Map (Key Bool))
    → All Steady (check_geofences within now vehicle_id r geofences fences).1
unfolding check_geofences
check_geofences-Steady within now vehicle_id r [] fences = tt
check_geofences-Steady within now vehicle_id r (g ∷ geofences) fences =
    All-append Steady _ _ (fence_alert-Steady g.name _)
      (check_geofences-Steady within now vehicle_id r geofences _)

-- The publisher's key is there for five minutes.
read-publish :
    (t jitter now : ℕ) (r : Report) (keys : Keys) (stream : List Report)
    → now < t + 300 * 1000
    → read now (Map.get (publish_location t jitter r (keys, stream)).0.states r.imei) ≡ some r
unfolding publish_location read
read-publish t jitter now r keys stream h = ground (
  arith,
  get-set keys.states r.imei r.imei (record { value = r; expires = t + 300 * 1000 }),
  equal_refl r.imei,
)

check_alerts-Steady :
    (within : Within) (now : ℕ) (vehicle_id : Text) (r : Report) (geofences : List Geofence)
    (keys : Keys)
    → All Steady (check_alerts within now vehicle_id (some r) r geofences keys).1
unfolding check_alerts
check_alerts-Steady within now vehicle_id r geofences keys = rw (transition_alerts_self r) (
    All-append Steady _ _ (idle_step-Steady now (is_idling r) (idle_keys_of keys vehicle_id))
      (check_geofences-Steady within now vehicle_id r geofences keys.fences))

sent-NoTransition :
    (imei : Text) (alerts : List Alert)
    → All Steady alerts
    → All NoTransition (map (send_alert imei) alerts)
sent-NoTransition imei [] h = tt
sent-NoTransition imei (a ∷ alerts) (h, hs) = (h, sent-NoTransition imei alerts hs)

emitted-NoTransition :
    (has_io : Bool) (v : Vehicle) (r : Report) → All NoTransition (emitted has_io v r)
unfolding emitted
emitted-NoTransition true v r = (tt, (tt, tt))
emitted-NoTransition false v r = tt

module _ (within : Within) (has_io : Bool) (now : ℕ) (answers : Answers) where
  process_live-NoTransition :
      (v : Vehicle) (r : Report) (keys : Keys)
      → read now (Map.get keys.states r.imei) ≡ some r
      → All NoTransition (process_live within has_io now answers v r keys).0
  unfolding process_live
  process_live-NoTransition v r keys e = rw e (
      All-append NoTransition _ _
        (sent-NoTransition r.imei _
          (check_alerts-Steady within now v.vehicle_id r (or_no_geofences answers.geofences) keys))
        (emitted-NoTransition has_io v r))

  process_report-NoTransition :
      (v : Vehicle) (r : Report) (keys : Keys)
      → read now (Map.get keys.states r.imei) ≡ some r
      → All NoTransition (process_report within has_io now answers v r keys).1
  unfolding process_report
  process_report-NoTransition v r keys e =
      let live = process_live-NoTransition v r keys e in
      elim (Bool-cases answers.point_saved) [
        | inr failed ↦ simp failed tt
        | inl point ↦ elim (Bool-cases answers.state_saved) [
          | inr failed ↦ simp (point, failed) (tt, tt)
          | inl state ↦ elim (Bool-cases r.is_live) [
            | inr old ↦ simp (point, state, old) (tt, (tt, tt))
            | inl fresh ↦ simp (point, state, fresh) (tt, (tt, live))
          ]
        ]
      ]

  process_resolved-NoTransition :
      (answer : Resolution) (r : Report) (keys : Keys)
      → read now (Map.get keys.states r.imei) ≡ some r
      → All NoTransition (process_resolved within has_io now answers answer r keys).1
  unfolding process_resolved
  process_resolved-NoTransition (resolved v) r keys e = process_report-NoTransition v r keys e
  process_resolved-NoTransition thrown r keys e = tt
  process_resolved-NoTransition unregistered r keys e = elim (Bool-cases answers.raw_saved) [
    | inl saved ↦ simp saved (tt, tt)
    | inr failed ↦ simp failed tt
  ]

  -- A packet that is processed within five minutes after it was published, and before another of its
  -- IMEI is, sends no alert that the ignition was turned on, that a trip started or that the vehicle
  -- stopped, whatever the packet, the vehicle's earlier packets and the answers of the database are:
  -- the state that it is compared with is its own.
  pub published-NoTransition :
      (t jitter : ℕ) (r : Report) (keys : Keys) (stream : List Report)
      → now < t + 300 * 1000
      → All NoTransition
          (process_entry within has_io now answers
            (some r)
            (publish_location t jitter r (keys, stream)).0).1
  unfolding process_entry
  published-NoTransition t jitter r keys stream h =
      process_resolved-NoTransition answers.resolution r
        (publish_location t jitter r (keys, stream)).0 (read-publish t jitter now r keys stream h)
