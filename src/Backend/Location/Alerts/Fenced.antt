-- ===== src/Backend/Location/Alerts/Fenced.antt =====
-- The alerts of one geofence over a vehicle's reports.
use fueltracks.Prelude.{
  ℕ, ◌+◌, ◌≡◌, refl, Bool, false, ◌&&◌, not, Option, none, some, List, [], ◌∷◌, ltb, arith,
}
use fueltracks.Backend.Location.Alerts.{Key, read, was_inside, day, geofence_step}

-- The alerts with their times, the last one first; true is `Geofence In`.
abbrev pub Log : Type 0
Log = List (ℕ × Bool)

abbrev pub logged : ℕ → Option Bool → Log → Log
logged now none log = log
logged now (some b) log = (now, b) ∷ log

-- The key and the alerts after these reports, the last one first: the time, and whether inside.
abbrev pub fenced : List (ℕ × Bool) → Option (Key Bool) × Log
fenced [] = (none, [])
fenced ((now, inside) ∷ reports) =
    let (key, log) = fenced reports in
    let (after, alert) = geofence_step now inside key in (after, logged now alert log)

-- The last alert is a `Geofence In` of the last 24 hours.
abbrev pub entered : ℕ → Log → Bool
entered now [] = false
entered now ((t, b) ∷ log) = ltb now (t + day) && b

was_inside-entered :
    (reports : List (ℕ × Bool)) (now : ℕ)
    → was_inside now (fenced reports).0 ≡ entered now (fenced reports).1
unfolding was_inside read geofence_step
was_inside-entered [] now = refl
was_inside-entered ((t, inside) ∷ reports) now =
    ground (arith, was_inside-entered reports now, was_inside-entered reports t)

-- Each alert follows the alerts before it: an `In` comes only where no `In` of the last 24 hours is
-- the last alert, an `Out` only where one is.
abbrev pub Alternates : Log → Type 0
Alternates [] = Unit {0}
Alternates ((t, b) ∷ log) = (entered t log ≡ not b) × Alternates log

fenced-Alternates : (reports : List (ℕ × Bool)) → Alternates (fenced reports).1
unfolding geofence_step
fenced-Alternates [] = tt
fenced-Alternates ((t, inside) ∷ reports) =
    ground (arith, was_inside-entered reports t, fenced-Alternates reports)

-- Whatever a vehicle's reports and their times: at any report the last alert of a geofence is an `In`
-- of the last 24 hours exactly if the vehicle is inside; an `In` is never sent while the last alert is
-- an `In` of the last 24 hours, and an `Out` only then.
pub fenced_tracks :
    (now : ℕ) (inside : Bool) (reports : List (ℕ × Bool))
    → (entered now (fenced ((now, inside) ∷ reports)).1 ≡ inside)
      × Alternates (fenced ((now, inside) ∷ reports)).1
unfolding geofence_step
fenced_tracks now inside reports =
    (ground (arith, was_inside-entered reports now), fenced-Alternates ((now, inside) ∷ reports))
