-- ===== src/Backend/Location/Alerts.antt =====
-- The alert checks of `processBatch` in backend/subscribers/locationSubscriber.js. A report has its
-- fields as the publisher's JSON has them, a number or `null`; coordinates are counted as in Polygon.
pub mod Fenced
pub mod Idle
use fueltracks.Prelude.{
  ℕ, zero, suc, ◌+◌, ◌*◌, Bool, true, false, ◌&&◌, ◌||◌, not, Option, none, some, List, [], ◌∷◌,
  ◌++◌, ltb, if◌then◌else◌,
}
use fueltracks.Js.Text.{Text}

pub record Report : Type 0 where
  pub imei : Text
  pub lat : ℕ
  pub lng : ℕ
  pub speed : Option ℕ
  pub ignition : Option Bool
  pub is_live : Bool

pub data Alert : Type 0 where
  ignition_on trip_started stoppage excessive_idle : Alert
  geofence_in geofence_out : Text → Alert

-- `x === true` and `x === false`
unfoldable pub is_on : Option Bool → Bool
is_on (some true) = true
is_on _ = false

unfoldable pub is_off : Option Bool → Bool
is_off (some false) = true
is_off _ = false

-- `speed > 0` and `speed === 0`
unfoldable pub is_moving : Option ℕ → Bool
is_moving (some (suc n)) = true
is_moving _ = false

unfoldable pub is_standing : Option ℕ → Bool
is_standing (some zero) = true
is_standing _ = false

unfoldable pub when : Bool → Alert → List Alert
when true alert = alert ∷ []
when false alert = []

-- `!prevState || …`, and `prevState && …`
unfoldable pub none_or : (Report → Bool) → Option Report → Bool
none_or test none = true
none_or test (some r) = test r

unfoldable pub some_and : (Report → Bool) → Option Report → Bool
some_and test none = false
some_and test (some r) = test r

unfoldable pub transition_alerts : Option Report → Report → List Alert
unfolding is_on is_off is_moving is_standing when none_or some_and
transition_alerts prev r =
    when (is_on r.ignition && none_or (λ (p : Report). is_off p.ignition) prev) ignition_on
    ++ when
        (is_on r.ignition
          && is_moving r.speed
          && none_or (λ (p : Report). is_standing p.speed || is_off p.ignition) prev)
        trip_started
    ++ when (is_off r.ignition && some_and (λ (p : Report). is_on p.ignition) prev) stoppage

-- A Redis key with the time at which it expires.
pub record Key {ℓ} (V : Type ℓ) : Type ℓ where
  pub value : V
  pub expires : ℕ

unfoldable pub read {ℓ} : {V : Type ℓ} → ℕ → Option (Key V) → Option V
read now none = none
read now (some k) = if ltb now k.expires then some k.value else none

-- `vehicle:idle_start:…` and `vehicle:idle_alert_fired:…`
pub record IdleKeys : Type 0 where
  pub start : Option (Key ℕ)
  pub fired : Option (Key Bool)

unfoldable pub is_idling : Report → Bool
unfolding is_on is_standing
is_idling r = is_on r.ignition && is_standing r.speed

unfoldable pub fire_idle : ℕ → IdleKeys → IdleKeys × List Alert
fire_idle now keys = elim (read now keys.fired) [
  | some b ↦ (keys, [])
  | none ↦ (
    record keys { fired = some (record { value = true; expires = now + 300 * 1000 }) },
    excessive_idle ∷ [],
  )
]

unfoldable pub idle_step : ℕ → Bool → IdleKeys → IdleKeys × List Alert
idle_step now false keys = (record { start = none; fired = none }, [])
idle_step now true keys = elim (read now keys.start) [
  | none ↦ (record keys { start = some (record { value = now; expires = now + 600 * 1000 }) }, [])
  | some t ↦ if ltb (t + 30000) now then fire_idle now keys else (keys, [])
]

-- `wasInsideRaw === 'inside'`; the value is true for `inside`.
unfoldable pub was_inside : ℕ → Option (Key Bool) → Bool
was_inside now key = elim (read now key) [ none ↦ false | some b ↦ b ]

abbrev pub day : ℕ
day = 86400 * 1000

unfoldable pub geofence_step : ℕ → Bool → Option (Key Bool) → Option (Key Bool) × Option Bool
geofence_step now inside key =
    if inside && not (was_inside now key)
    then (some (record { value = true; expires = now + day }), some true)
    else if not inside && was_inside now key
    then (some (record { value = false; expires = now + day }), some false)
    else (key, none)
