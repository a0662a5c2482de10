-- ===== src/Tests/Location.antt =====
-- The location subscriber: a packet with the ignition on, a geofence, an idling vehicle.
use fueltracks.Prelude.{
  ℕ, ◌+◌, ◌<◌, ◌≡◌, inr, refl, Bool, true, false, ◌&&◌, leb, ltb, none, some, List, [], ◌∷◌, All,
  arith,
}
use fueltracks.Js.Text.{codes}
use fueltracks.Js.Map
use fueltracks.Writer.{Vehicle}
use fueltracks.Writer.Vehicles.{resolved}
use fueltracks.Backend.Location.Polygon.{Vertex, is_point_in_polygon}
use fueltracks.Backend.Location.Polygon.Box.{outside-box, rectangle, rectangle-holds}
use fueltracks.Backend.Location.Alerts.{Report, excessive_idle, idle_step, read, fire_idle}
use fueltracks.Backend.Location.Alerts.Fenced.{entered, fenced, Alternates, fenced_tracks}
use fueltracks.Backend.Location.Alerts.Idle.{idle_keys, IdlesSince, excessive_idle-IdlesSince}
use fueltracks.Backend.Location.Entry.{Answers, Within, Keys, publish_location, process_entry}
use fueltracks.Backend.Location.Published.{NoTransition, published-NoTransition}

abbrev triangle : List Vertex
triangle =
    record { lat = 10; lng = 10 }
    ∷ record { lat = 20; lng = 30 }
    ∷ record { lat = 30; lng = 10 }
    ∷ []

outside-box_example : is_point_in_polygon 5 15 triangle ≡ false
outside-box_example = outside-box 5 15 triangle (inr (inr (inr (omega arith))))

rectangle-holds_example :
    is_point_in_polygon 12 33 (rectangle 10 20 30 40)
    ≡ (leb 10 12 && ltb 12 20 && leb 30 33 && ltb 33 40)
rectangle-holds_example = rectangle-holds 10 20 30 40 12 33 (omega arith) (omega arith)

abbrev two_reports : List (ℕ × Bool)
two_reports = (2000, true) ∷ (1000, false) ∷ []

fenced_tracks_example :
    (entered 3000 (fenced ((3000, false) ∷ two_reports)).1 ≡ false)
    × Alternates (fenced ((3000, false) ∷ two_reports)).1
fenced_tracks_example = fenced_tracks 3000 false two_reports

abbrev idle_reports : List (ℕ × Bool)
idle_reports = (20000, true) ∷ (1000, true) ∷ []

idle_alert : (idle_step 40000 true (idle_keys idle_reports)).1 ≡ excessive_idle ∷ []
unfolding idle_step read fire_idle
idle_alert = refl

excessive_idle-IdlesSince_example :
    (t : ℕ) × (t + 30000 < 40000) × IdlesSince t ((40000, true) ∷ idle_reports)
excessive_idle-IdlesSince_example = excessive_idle-IdlesSince 40000 true idle_reports idle_alert

abbrev started : Report
started = record {
  imei = codes "865006049210220";
  lat = 1073453780;
  lng = 2585239230;
  speed = some 45;
  ignition = some true;
  is_live = true;
}

abbrev truck : Vehicle
truck = record { vehicle_id = codes "7"; org_id = codes "2"; name = none; plate = none }

abbrev all_well : Answers
all_well = record {
  resolution = resolved truck;
  raw_saved = true;
  point_saved = true;
  state_saved = true;
  geofences = some [];
}

abbrev no_keys : Keys
no_keys = record { states = Map.empty; online = Map.empty; idles = Map.empty; fences = Map.empty }

-- no circle holds any point
abbrev nowhere : Within
nowhere a b c d e = false

published-NoTransition_example :
    All NoTransition
      (process_entry nowhere true 1500 all_well
        (some started)
        (publish_location 1000 5 started (no_keys, [])).0).1
published-NoTransition_example =
    published-NoTransition nowhere true 1500 all_well 1000 5 started no_keys [] (omega arith)
