-- ===== src/Concox/Fields/Gps.antt =====
-- What `parseGpsBlock` reads, in closed form, and the coordinates that a device sends.
use fueltracks.Prelude.{
  ℕ, zero, suc, ◌+◌, ◌*◌, ◌/◌, ◌%◌, ◌^◌, ◌≤◌, ◌<◌, ◌≡◌, refl, sym, ap, Bool, true, false, not, [],
  ◌∷◌, All, length, bit_and, if◌then◌else◌, arith,
}
use fueltracks.Prelude.Bits.{bit_and_mask}
use fueltracks.Prelude.Int.{pos, neg, nat_abs}
use fueltracks.Js.Buffer.{Bytes, IsByte, ok, byte, word, word-sum, read_u32_be-ok}
use fueltracks.Concox.Fields.{GpsBlock, flag, coordinate, parse_gps_block}

-- the 32-bit number at an offset
abbrev pub u32_at : Bytes → ℕ → ℕ
u32_at buf offset =
    byte buf offset * 2 ^ 24
    + byte buf (offset + 1) * 2 ^ 16
    + byte buf (offset + 2) * 2 ^ 8
    + byte buf (offset + 3)

abbrev pub gps_block : Bytes → ℕ → GpsBlock
gps_block buf offset =
    let course_high = byte buf (offset + 10) in
    let course_low = byte buf (offset + 11) in
    record {
      satellites = bit_and (byte buf offset) 0x0f;
      lat = coordinate (u32_at buf (offset + 1)) (not (flag course_high 0x10));
      lng = coordinate (u32_at buf (offset + 5)) (flag course_high 0x20);
      speed = byte buf (offset + 9);
      heading = word (bit_and course_high 0x03) course_low;
      gps_valid = flag course_high 0x40;
      raw_course = word course_high course_low;
      consumed = 12;
    }

pub parse_gps_block-ok :
    (buf : Bytes) (offset : ℕ)
    → offset + 9 ≤ length buf
    → parse_gps_block buf offset ≡ ok (gps_block buf offset)
unfolding parse_gps_block
parse_gps_block-ok buf offset h =
    rw
      (
        read_u32_be-ok buf (offset + 1) (omega (arith, h)),
        read_u32_be-ok buf (offset + 5) (omega (arith, h)),
      )
      refl

pub byte-lt : (buf : Bytes) (i : ℕ) → All IsByte buf → byte buf i < 256
byte-lt [] i h = omega arith
byte-lt (b ∷ buf) zero h = h.0
byte-lt (b ∷ buf) (suc i) h = byte-lt buf i h.1

nat_abs-neg : (n : ℕ) → nat_abs (neg (pos n)) ≡ n
nat_abs-neg zero = refl
nat_abs-neg (suc n) = grind arith

pub nat_abs-coordinate :
    (raw : ℕ) (negative : Bool) → nat_abs (coordinate raw negative) ≡ (raw * 50 + 4) / 9
unfolding coordinate
nat_abs-coordinate raw true = nat_abs-neg ((raw * 50 + 4) / 9)
nat_abs-coordinate raw false = omega arith

word_mod : (high low : ℕ) → low < 256 → word (bit_and high 0x03) low ≡ word high low % 1024
word_mod high low h =
    rw (word-sum (bit_and high 0x03) low h, word-sum high low h, bit_and_mask 2 high) (omega arith)

coordinate-bound :
    (raw : ℕ) (negative : Bool) → raw < 2 ^ 32 → nat_abs (coordinate raw negative) ≤ 23860929417
coordinate-bound raw negative h = omega (arith, h, nat_abs-coordinate raw negative)

u32_at-lt : (buf : Bytes) (offset : ℕ) → All IsByte buf → u32_at buf offset < 2 ^ 32
u32_at-lt buf offset bytes = omega (
  arith,
  byte-lt buf offset bytes,
  byte-lt buf (offset + 1) bytes,
  byte-lt buf (offset + 2) bytes,
  byte-lt buf (offset + 3) bytes,
)

sign-coordinate :
    (raw : ℕ) (negative : Bool)
    → let got = coordinate raw negative in
      got ≡ (if negative then neg (pos (nat_abs got)) else pos (nat_abs got))
unfolding coordinate
sign-coordinate raw true = ap (λ t. neg (pos t)) (sym (nat_abs-neg ((raw * 50 + 4) / 9)))
sign-coordinate raw false = ap pos (omega arith)

-- Of a buffer of bytes with a whole block at the offset, the satellites are fewer than 16, the heading
-- is the low ten bits of the course word and the speed a byte, and no
-- coordinate passes 2386.0929417 degrees, the largest that 32 bits hold.
pub parse_gps_block-bounds :
    (buf : Bytes) (offset : ℕ)
    → All IsByte buf
    → offset + 12 ≤ length buf
    → (g : GpsBlock) × (parse_gps_block buf offset ≡ ok g)
      × (g.satellites < 16)
      × (g.speed < 256)
      × (g.heading ≡ g.raw_course % 1024)
      × (nat_abs g.lat ≤ 23860929417)
      × (nat_abs g.lng ≤ 23860929417)
parse_gps_block-bounds buf offset bytes h =
    let course_high = byte buf (offset + 10) in
    let course_low = byte buf (offset + 11) in
    (
      gps_block buf offset,
      parse_gps_block-ok buf offset (omega (arith, h)),
      omega (arith, bit_and_mask 4 (byte buf offset)),
      byte-lt buf (offset + 9) bytes,
      word_mod course_high course_low (byte-lt buf (offset + 11) bytes),
      coordinate-bound (u32_at buf (offset + 1)) (not (flag course_high 0x10))
          (u32_at-lt buf (offset + 1) bytes),
      coordinate-bound (u32_at buf (offset + 5)) (flag course_high 0x20)
          (u32_at-lt buf (offset + 5) bytes),
    )

-- `Math.round(Math.abs(v) * 1800000)` of scripts/deviceSimulator.js for `v` in units of 1e-7 degrees
unfoldable pub raw_coordinate : ℕ → ℕ
raw_coordinate v = (v * 9 + 25) / 50

-- What the repository's own devices send for a coordinate is decoded to it within three units (3e-7
-- degrees, 4 cm), in the hemisphere that the flag says.
pub coordinate-raw_coordinate :
    (v : ℕ)
    → (negative : Bool)
    → let got = coordinate (raw_coordinate v) negative in
      (nat_abs got ≤ v + 3)
      × (v ≤ nat_abs got + 3)
      × (got ≡ (if negative then neg (pos (nat_abs got)) else pos (nat_abs got)))
unfolding raw_coordinate
coordinate-raw_coordinate v negative =
    let size = nat_abs-coordinate (raw_coordinate v) negative in
    (omega (arith, size), omega (arith, size), sign-coordinate (raw_coordinate v) negative)
