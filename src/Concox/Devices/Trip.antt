-- ===== src/Concox/Devices/Trip.antt =====
-- The trip of a device: `updateConcoxState`.
use fueltracks.Prelude.{
  ℕ, zero, suc, ◌+◌, ◌%◌, ◌<◌, ◌≡◌, inl, inr, refl, Bool-cases, some, leb, ◌==◌, ◌||◌,
  if◌then◌else◌, arith,
}
use fueltracks.Prelude.Int.{ℤ}
use fueltracks.Concox.Devices.{Device, update_concox_state}

-- how many ticks a stage lasts
abbrev pub lasts : ℕ → ℕ
lasts stage = if stage == 1 || stage == 2 then 3 else 2

-- the ticks of the stages before
abbrev pub starts : ℕ → ℕ
starts stage =
    if stage == 0
    then 0
    else if stage == 1
    then 2
    else if stage == 2
    then 5
    else if stage == 3
    then 8
    else 10

abbrev pub IsOnTrip : ℕ → Device → Type 0
IsOnTrip stage d = (d.stage ≡ some stage) × (stage < 5) × (d.stage_ctr < lasts stage)

-- how many ticks of the trip are over
abbrev pub clock : ℕ → Device → ℕ
clock stage d = starts stage + d.stage_ctr

abbrev pub Goes : ℤ × ℤ → ℕ → Device → Device → Type 0
Goes nudged stage d after =
    ((next : ℕ) × IsOnTrip next after × (clock next after ≡ (clock stage d + 1) % 12))
    × (after.speed ≡ (if stage == 3 then 90 else if stage == 2 then 45 else 0))
    × (after.lat ≡ (if stage == 2 || stage == 3 then nudged.0 else d.lat))
    × (after.lng ≡ (if stage == 2 || stage == 3 then nudged.1 else d.lng))

goes :
    (nudged : ℤ × ℤ) (d : Device) (stage : ℕ)
    → d.stage ≡ some stage
    → stage < 5
    → d.stage_ctr < lasts stage
    → Goes nudged stage d (update_concox_state nudged d)
unfolding update_concox_state
goes nudged d zero e h c = elim (Bool-cases (leb 2 (d.stage_ctr + 1))) [
  | inl over ↦ rw (e, over) ((1, (refl, omega arith, omega arith), ground arith), refl, refl, refl)
  | inr on ↦ rw (e, on) ((0, (refl, omega arith, ground arith), ground arith), refl, refl, refl)
]
goes nudged d (suc zero) e h c = elim (Bool-cases (leb 3 (d.stage_ctr + 1))) [
  | inl over ↦ rw (e, over) ((2, (refl, omega arith, omega arith), ground arith), refl, refl, refl)
  | inr on ↦ rw (e, on) ((1, (refl, omega arith, ground arith), ground arith), refl, refl, refl)
]
goes nudged d (suc (suc zero)) e h c = elim (Bool-cases (leb 3 (d.stage_ctr + 1))) [
  | inl over ↦ rw (e, over) ((3, (refl, omega arith, omega arith), ground arith), refl, refl, refl)
  | inr on ↦ rw (e, on) ((2, (refl, omega arith, ground arith), ground arith), refl, refl, refl)
]
goes nudged d (suc (suc (suc zero))) e h c = elim (Bool-cases (leb 2 (d.stage_ctr + 1))) [
  | inl over ↦ rw (e, over) ((4, (refl, omega arith, omega arith), ground arith), refl, refl, refl)
  | inr on ↦ rw (e, on) ((3, (refl, omega arith, ground arith), ground arith), refl, refl, refl)
]
goes nudged d (suc (suc (suc (suc zero)))) e h c = elim (Bool-cases (leb 2 (d.stage_ctr + 1))) [
  | inl over ↦ rw (e, over) ((0, (refl, omega arith, omega arith), ground arith), refl, refl, refl)
  | inr on ↦ rw (e, on) ((4, (refl, omega arith, ground arith), ground arith), refl, refl, refl)
]
goes nudged d (suc (suc (suc (suc (suc n))))) e h c = absurd (omega arith)

-- A device that is on its trip stays on it, and its clock goes on by one, around 12: the five stages
-- come in order, for 2, 3, 3, 2 and 2 ticks. In the tick its speed is 90 in stage 3, 45 in stage 2 and
-- 0 in the others, and it moves to the nudged coordinates in stages 2 and 3 and stays in the others.
pub update_concox_state-IsOnTrip :
    (nudged : ℤ × ℤ) (d : Device) (stage : ℕ)
    → IsOnTrip stage d
    → Goes nudged stage d (update_concox_state nudged d)
update_concox_state-IsOnTrip nudged d stage (e, h, c) = goes nudged d stage e h c
