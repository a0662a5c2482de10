-- ===== src/Backend/Location/Alerts/Idle.antt =====
-- The idle alert over a vehicle's reports.
use fueltracks.Prelude.{
  ℕ, ◌+◌, ◌<◌, ◌≡◌, ◌⊎◌, inr, Bool, true, false, Option, none, some, List, [], ◌∷◌, arith,
}
use fueltracks.Backend.Location.Alerts.{Key, read, IdleKeys, fire_idle, idle_step, excessive_idle}

-- The keys after these reports, the last one first: the time, and whether the vehicle idles.
abbrev pub idle_keys : List (ℕ × Bool) → IdleKeys
idle_keys [] = record { start = none; fired = none }
idle_keys ((now, idling) ∷ reports) = (idle_step now idling (idle_keys reports)).0

-- The vehicle idles in all reports from one at this time on.
abbrev pub IdlesSince : ℕ → List (ℕ × Bool) → Type 0
IdlesSince t [] = ⊥
IdlesSince t ((now, true) ∷ reports) = (now ≡ t) ⊎ IdlesSince t reports
IdlesSince t ((now, false) ∷ reports) = ⊥

abbrev StartsAt : Option (Key ℕ) → List (ℕ × Bool) → Type 0
StartsAt none reports = Unit {0}
StartsAt (some k) reports = IdlesSince k.value reports

idle_step-StartsAt :
    (now : ℕ) (idling : Bool) (keys : IdleKeys) (reports : List (ℕ × Bool))
    → StartsAt keys.start reports
    → StartsAt (idle_step now idling keys).0.start ((now, idling) ∷ reports)
unfolding idle_step fire_idle read
idle_step-StartsAt now idling keys reports h = ground arith

idle_keys-StartsAt : (reports : List (ℕ × Bool)) → StartsAt (idle_keys reports).start reports
idle_keys-StartsAt [] = tt
idle_keys-StartsAt ((now, idling) ∷ reports) =
    idle_step-StartsAt now idling (idle_keys reports) reports (idle_keys-StartsAt reports)

alert-IdlesSince :
    (now : ℕ) (idling : Bool) (start : Option (Key ℕ)) (fired : Option (Key Bool))
    (reports : List (ℕ × Bool))
    → StartsAt start reports
    → (idle_step now idling (record { start = start; fired = fired })).1 ≡ excessive_idle ∷ []
    → (t : ℕ) × (t + 30000 < now) × IdlesSince t ((now, idling) ∷ reports)
unfolding idle_step read
alert-IdlesSince now false start fired reports s h = cc
alert-IdlesSince now true none fired reports s h = cc
alert-IdlesSince now true (some k) fired reports s h = (k.value, ground arith, inr s)

-- An idle alert is sent only to a vehicle that idles now and in all reports from one on that is more
-- than thirty seconds old.
pub excessive_idle-IdlesSince :
    (now : ℕ) (idling : Bool) (reports : List (ℕ × Bool))
    → (idle_step now idling (idle_keys reports)).1 ≡ excessive_idle ∷ []
    → (t : ℕ) × (t + 30000 < now) × IdlesSince t ((now, idling) ∷ reports)
excessive_idle-IdlesSince now idling reports h =
    let keys = idle_keys reports in
    alert-IdlesSince now idling keys.start keys.fired reports (idle_keys-StartsAt reports) h
