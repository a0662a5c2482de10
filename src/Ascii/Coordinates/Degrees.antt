-- ===== src/Ascii/Coordinates/Degrees.antt =====
-- The arithmetic of the coordinates of the text protocols.
use fueltracks.Prelude.{ℕ, ◌+◌, ◌*◌, ◌/◌, ◌^◌, ◌≤◌, ◌<◌, false, arith}
use fueltracks.Ascii.Coordinates.{ddm_units}

-- `min.toFixed(4)` of scripts/deviceSimulator.js, in units of 1e-4 minutes, for a fraction of a degree
-- in units of 1e-7: 60 * fraction / 1000, rounded
unfoldable pub minutes_sent : ℕ → ℕ
minutes_sent fraction = (fraction * 60 * 2 + 1000) / 2000

-- A coordinate of `whole` degrees and a fraction (in units of 1e-7 degrees) that a BSTPL-17 device
-- sends as degrees and minutes with four decimals is decoded to it within 9 units (1e-6 degrees,
-- 10 cm), also where the minutes round up to 60.
pub ddm_units-minutes_sent :
    (whole fraction : ℕ)
    → fraction < 10 ^ 7
    → let got = ddm_units false (whole * 10 ^ 6 + minutes_sent fraction) (10 ^ 4) in
      (got ≤ whole * 10 ^ 7 + fraction + 9) × (whole * 10 ^ 7 + fraction ≤ got + 9)
unfolding ddm_units minutes_sent
ddm_units-minutes_sent whole fraction h = (omega arith, omega arith)
