-- ===== src/Concox/Parsers/Fix.antt =====
-- Which positions count as a fix.
use fueltracks.Prelude.{
  ℕ, ◌+◌, ◌≤◌, ◌≡◌, refl, Bool, true, false, not, ◌&&◌, ◌||◌, ◌==◌, if◌then◌else◌, arith,
}
use fueltracks.Prelude.Int.{nat_abs}
use fueltracks.Js.Buffer.{Bytes, ok, byte}
use fueltracks.Prelude.{length}
use fueltracks.Concox.Fields.{GpsBlock, flag, coordinate, parse_gps_block}
use fueltracks.Concox.Fields.Gps.{u32_at, gps_block, parse_gps_block-ok, nat_abs-coordinate}
use fueltracks.Concox.Packets.{valid, void}
use fueltracks.Concox.Parsers.{final_gps_valid}

zero-coordinate :
    (raw : ℕ) (negative : Bool) → (nat_abs (coordinate raw negative) == 0) ≡ (raw == 0)
zero-coordinate raw negative = rw (nat_abs-coordinate raw negative) (ground arith)

choice :
    (f a b : Bool)
    → (if f then valid else if not a && not b then valid else void)
      ≡ (if not f && (a || b) then void else valid)
choice true a b = refl
choice false true b = refl
choice false false true = refl
choice false false false = refl

-- A position block is void exactly where the fix flag (0x40 of the first course byte) is clear and the
-- latitude or the longitude on the wire is zero; a clone that never sets the flag is believed.
pub final_gps_valid-void :
    (buf : Bytes) (offset : ℕ)
    → offset + 9 ≤ length buf
    → (g : GpsBlock) × (parse_gps_block buf offset ≡ ok g)
      × (final_gps_valid g ≡ (
          if not (flag (byte buf (offset + 10)) 0x40)
            && (u32_at buf (offset + 1) == 0 || u32_at buf (offset + 5) == 0)
          then void
          else valid))
unfolding final_gps_valid
final_gps_valid-void buf offset h =
    let lat : ℕ = u32_at buf (offset + 1) in
    let lng : ℕ = u32_at buf (offset + 5) in
    let course : ℕ = byte buf (offset + 10) in
    (
      gps_block buf offset,
      parse_gps_block-ok buf offset h,
      rw (zero-coordinate lat (not (flag course 0x10)), zero-coordinate lng (flag course 0x20))
          (choice (flag course 0x40) (lat == 0) (lng == 0)),
    )
