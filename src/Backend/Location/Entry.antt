-- ===== src/Backend/Location/Entry.antt =====
-- `processBatch` of backend/subscribers/locationSubscriber.js for one entry, and `publishLocation` of
-- tcp-server/publisher.js, which writes the key that it reads. Redis commands succeed; the database may
-- fail at each call.
use fueltracks.Prelude.{
  ℕ, ◌+◌, ◌*◌, Bool, true, false, not, Option, none, some, List, [], ◌∷◌, ◌++◌, map, ltb,
  if◌then◌else◌,
}
use fueltracks.Js.Text.{Text, codes}
use fueltracks.Js.Map
use fueltracks.Js.Map.{Map}
use fueltracks.Writer.{Vehicle}
use fueltracks.Writer.Vehicles.{
  Hash, Found, Resolution, resolved, unregistered, thrown, of_hash, of_database,
}
use fueltracks.Backend.Location.Polygon.{Vertex, is_point_in_polygon}
use fueltracks.Backend.Location.Alerts.{
  Report, Alert, geofence_in, geofence_out, transition_alerts, Key, read, IdleKeys, is_idling,
  idle_step, geofence_step,
}

pub data Shape : Type 0 where
  circle : ℕ → ℕ → ℕ → Shape
  polygon : List Vertex → Shape
  other : Shape

pub record Geofence : Type 0 where
  pub id : Text
  pub name : Text
  pub shape : Shape

-- The Redis keys, by what stands behind their prefix.
pub record Keys : Type 0 where
  pub states : Map (Key Report)
  pub online : Map (Key Bool)
  pub idles : Map IdleKeys
  pub fences : Map (Key Bool)

pub data Effect : Type 0 where
  save_raw : Text → Effect
  save_point : Text → Report → Effect
  save_latest : Text → Report → Effect
  send_alert : Text → Alert → Effect
  emit_to_vehicle : Text → Report → Effect
  emit_to_org : Text → Report → Effect

-- `publishLocation`: the entry goes to the stream, and the state to its key.
unfoldable pub publish_location : ℕ → ℕ → Report → Keys × List Report → Keys × List Report
publish_location now jitter r (keys, stream) = (
  record keys {
    states = Map.set keys.states r.imei (record { value = r; expires = now + 300 * 1000 });
    online =
        Map.set keys.online r.imei (record { value = true; expires = now + (80 + jitter) * 1000 });
  },
  stream ++ r ∷ [],
)

-- How the database answers for the entry; `geofences` is `none` where the query fails.
pub record Answers : Type 0 where
  pub resolution : Resolution
  pub raw_saved : Bool
  pub point_saved : Bool
  pub state_saved : Bool
  pub geofences : Option (List Geofence)

-- `getHaversineDistance(…) <= radius`, with the floating-point functions of `Math`
abbrev pub Within : Type 0
Within = ℕ → ℕ → ℕ → ℕ → ℕ → Bool

unfoldable pub is_inside : Within → Report → Shape → Bool
is_inside within r (circle lat lng radius) = within r.lat r.lng lat lng radius
is_inside within r (polygon vertices) = is_point_in_polygon r.lat r.lng vertices
is_inside within r other = false

unfoldable pub fence_alert : Text → Option Bool → List Alert
fence_alert name none = []
fence_alert name (some true) = geofence_in name ∷ []
fence_alert name (some false) = geofence_out name ∷ []

unfoldable pub put_key : Map (Key Bool) → Text → Option (Key Bool) → Map (Key Bool)
put_key fences key none = fences
put_key fences key (some k) = Map.set fences key k

-- The loop over the geofences.
unfoldable pub check_geofences :
    Within → ℕ → Text → Report → List Geofence → Map (Key Bool) → Map (Key Bool) × List Alert
check_geofences within now vehicle_id r [] fences = (fences, [])
check_geofences within now vehicle_id r (g ∷ geofences) fences =
    let key = g.id ++ codes ":" ++ vehicle_id in
    let (after, alert) = geofence_step now (is_inside within r g.shape) (Map.get fences key) in
    let (rest, alerts) =
      check_geofences within now vehicle_id r geofences (put_key fences key after) in
    (rest, fence_alert g.name alert ++ alerts)

unfoldable pub or_no_geofences : Option (List Geofence) → List Geofence
or_no_geofences none = []
or_no_geofences (some geofences) = geofences

unfoldable pub idle_keys_of : Keys → Text → IdleKeys
idle_keys_of keys vehicle_id = elim (Map.get keys.idles vehicle_id) [
  | none ↦ record { start = none; fired = none }
  | some k ↦ k
]

-- The checks of a live packet.
unfoldable pub check_alerts :
    Within → ℕ → Text → Option Report → Report → List Geofence → Keys → Keys × List Alert
check_alerts within now vehicle_id prev r geofences keys =
    let (idle, idle_alerts) = idle_step now (is_idling r) (idle_keys_of keys vehicle_id) in
    let (fences, fence_alerts) = check_geofences within now vehicle_id r geofences keys.fences in
    (
      record keys { idles = Map.set keys.idles vehicle_id idle; fences = fences },
      transition_alerts prev r ++ idle_alerts ++ fence_alerts,
    )

unfoldable pub emitted : Bool → Vehicle → Report → List Effect
emitted false v r = []
emitted true v r = emit_to_vehicle v.vehicle_id r ∷ emit_to_org v.org_id r ∷ []

unfoldable pub process_live :
    Within → Bool → ℕ → Answers → Vehicle → Report → Keys → List Effect × Keys
process_live within has_io now answers v r keys =
    let prev = read now (Map.get keys.states r.imei) in
    let (after, alerts) =
      check_alerts within now v.vehicle_id prev r (or_no_geofences answers.geofences) keys in
    (map (send_alert r.imei) alerts ++ emitted has_io v r, after)

-- Whether the entry is acknowledged, what happens outside, and the keys.
unfoldable pub process_report :
    Within → Bool → ℕ → Answers → Vehicle → Report → Keys → Bool × List Effect × Keys
process_report within has_io now answers v r keys =
    if not answers.point_saved
    then (false, [], keys)
    else if not answers.state_saved
    then (false, save_point v.vehicle_id r ∷ [], keys)
    else if not r.is_live
    then (true, save_point v.vehicle_id r ∷ save_latest v.vehicle_id r ∷ [], keys)
    else (let (effects, after) = process_live within has_io now answers v r keys in
        (true, save_point v.vehicle_id r ∷ save_latest v.vehicle_id r ∷ effects, after))

unfoldable pub process_resolved :
    Within → Bool → ℕ → Answers → Resolution → Report → Keys → Bool × List Effect × Keys
process_resolved within has_io now answers (resolved v) r keys =
    process_report within has_io now answers v r keys
process_resolved within has_io now answers unregistered r keys =
    if answers.raw_saved then (true, save_raw r.imei ∷ [], keys) else (false, [], keys)
process_resolved within has_io now answers thrown r keys = (false, [], keys)

-- An entry that `JSON.parse` refuses is not acknowledged.
unfoldable pub process_entry :
    Within → Bool → ℕ → Answers → Option Report → Keys → Bool × List Effect × Keys
process_entry within has_io now answers none keys = (false, [], keys)
process_entry within has_io now answers (some r) keys =
    process_resolved within has_io now answers answers.resolution r keys

-- `imeiCache` with `CACHE_TS`: the vehicle of an IMEI and when it was cached.
abbrev pub Cache : Type 0
Cache = Map (Vehicle × ℕ)

unfoldable pub is_fresh : ℕ → Vehicle × ℕ → Bool
is_fresh now (v, at) = ltb now (at + 5 * 60 * 1000)

unfoldable pub cache_found : ℕ → Text → Found → Cache → Resolution × Cache × Option Hash
cache_found now imei (Found.vehicle v) cache =
    let (answer, warmed) = of_database (Found.vehicle v) in
    (answer, Map.set cache imei (v, now), warmed)
cache_found now imei found cache =
    let (answer, warmed) = of_database found in (answer, cache, warmed)

-- Redis must give the id and the organization here.
unfoldable pub resolve_cold : ℕ → Text → Hash → Found → Cache → Resolution × Cache × Option Hash
resolve_cold now imei h found cache = elim h.id [
  | [] ↦ cache_found now imei found cache
  | c ∷ s ↦ elim h.org_id [
    | [] ↦ cache_found now imei found cache
    | d ∷ t ↦ (resolved (of_hash h), Map.set cache imei (of_hash h, now), none)
  ]
]

unfoldable pub resolve_cached : ℕ → Text → Hash → Found → Cache → Resolution × Cache × Option Hash
resolve_cached now imei h found cache = elim (Map.get cache imei) [
  | none ↦ resolve_cold now imei h found cache
  | some (v, at) ↦
      let cold = resolve_cold now imei h found cache in
      if is_fresh now (v, at) then (resolved v, cache, none) else cold
]

unfoldable pub invalidate_imei : Text → Cache → Cache
invalidate_imei imei cache = Map.delete cache imei
