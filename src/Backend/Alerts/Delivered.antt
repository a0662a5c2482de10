-- ===== src/Backend/Alerts/Delivered.antt =====
-- How often an alert is saved, over all the times that its entry is read.
use fueltracks.Prelude.{
  ℕ, ◌+◌, ◌≡◌, Bool, true, false, Option, none, some, List, [], ◌∷◌, if◌then◌else◌, length,
}
use fueltracks.Backend.Alerts.{
  AlertMessage, AlertEntry, AlertEffect, warn_unregistered, save_alert, notify, alert_to_vehicle,
  alert_to_org, AlertRound, process_alerts, Attempt, attempt,
}

module _ (test : AlertMessage → Bool) where
  abbrev counted : AlertMessage → ℕ
  counted m = if test m then 1 else 0

  -- The alerts that pass the test: those that were saved or found to be of an unregistered device,
  -- and those in a list of entries.
  abbrev pub settled : List AlertEffect → ℕ
  settled [] = 0
  settled (save_alert id m ∷ effects) = counted m + settled effects
  settled (warn_unregistered m ∷ effects) = counted m + settled effects
  settled (notify n ∷ effects) = settled effects
  settled (alert_to_vehicle id m ∷ effects) = settled effects
  settled (alert_to_org id m ∷ effects) = settled effects

  abbrev in_entry : Option AlertMessage → ℕ
  in_entry none = 0
  in_entry (some m) = counted m

  abbrev pub waiting : List AlertEntry → ℕ
  waiting [] = 0
  waiting (e ∷ entries) = in_entry e.message + waiting entries

  -- An entry is settled once where it is acknowledged, and otherwise not at all.
  abbrev Settles : Option AlertMessage → Bool × List AlertEffect → Type 0
  Settles message (true, effects) = settled effects ≡ in_entry message
  Settles message (false, effects) = settled effects ≡ 0

  -- What is settled and what is left make up the entries.
  abbrev pub Balances : List AlertEntry → AlertRound → Type 0
  Balances entries r =
      (waiting r.left + settled r.effects ≡ waiting entries)
      × (length r.acked + length r.left ≡ length entries)

  -- The alerts of the entries that a batch with a failing `XACK` has returned, over all batches: these
  -- are the ones that come again although they were settled.
  abbrev pub again : Bool → List Attempt → List AlertEntry → ℕ
  again has_io [] entries = 0
  again has_io (a ∷ later) entries =
      (if a.xack then 0 else settled (process_alerts has_io a.answers entries).effects)
      + again has_io later (attempt has_io a entries).left
