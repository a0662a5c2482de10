-- ===== src/Ascii/Validator/Accepted.antt =====
-- Which packets the validators accept.
use fueltracks.Prelude.{ℕ, ◌≤◌, ◌≡◌, ◌↔◌, refl, true, false, none, arith}
use fueltracks.Prelude.Int.{nat_abs}
use fueltracks.Js.Text.{codes, equal}
use fueltracks.Js.Map.{equal_iff}
use fueltracks.Ascii.{Coordinate, null_coordinate, nan, infinite, degrees, TextLocation}
use fueltracks.Ascii.Validator.{
  has_15_digits, is_null, is_outside, is_missing, validate_normal_packet,
}

-- A number within the limit, or `NaN`.
abbrev pub IsWithin : ℕ → Coordinate → Type 0
IsWithin limit null_coordinate = ⊥
IsWithin limit nan = Unit
IsWithin limit infinite = ⊥
IsWithin limit (degrees z) = nat_abs z ≤ limit

abbrev pub IsAccepted : TextLocation → Type 0
IsAccepted p =
    (p.gps_valid ≡ codes "A")
    × (has_15_digits p.imei ≡ true)
    × IsWithin 900000000 p.lat
    × IsWithin 1800000000 p.lng
    × (is_missing p.device_time ≡ false)

within :
    (limit : ℕ) (c : Coordinate)
    → (is_null c ≡ false) × (is_outside limit c ≡ false)
    → IsWithin limit c
within limit null_coordinate e = cc
within limit nan e = tt
within limit infinite e = cc
within limit (degrees z) e = ground arith

within_back :
    (limit : ℕ) (c : Coordinate)
    → IsWithin limit c
    → (is_null c ≡ false) × (is_outside limit c ≡ false)
within_back limit null_coordinate w = absurd w
within_back limit nan w = (refl, refl)
within_back limit infinite w = absurd w
within_back limit (degrees z) w = (refl, ground arith)

tests :
    (p : TextLocation)
    → validate_normal_packet p ≡ none
    → (equal p.gps_valid (codes "A") ≡ true)
      × (has_15_digits p.imei ≡ true)
      × (is_null p.lat ≡ false)
      × (is_null p.lng ≡ false)
      × (is_outside 900000000 p.lat ≡ false)
      × (is_outside 1800000000 p.lng ≡ false)
      × (is_missing p.device_time ≡ false)
unfolding validate_normal_packet
tests p e = ground arith

forth : (p : TextLocation) → validate_normal_packet p ≡ none → IsAccepted p
forth p e =
    let (fix, imei, lat, lng, lat_in, lng_in, time) = tests p e in
    (
      (equal_iff p.gps_valid (codes "A")).0 fix,
      imei,
      within 900000000 p.lat (lat, lat_in),
      within 1800000000 p.lng (lng, lng_in),
      time,
    )

back : (p : TextLocation) → IsAccepted p → validate_normal_packet p ≡ none
unfolding validate_normal_packet
back p (fix, imei, lat, lng, time) =
    let (lat_there, lat_in) = within_back 900000000 p.lat lat in
    let (lng_there, lng_in) = within_back 1800000000 p.lng lng in
    rw ((equal_iff p.gps_valid (codes "A")).1 fix, imei, lat_there, lng_there, lat_in, lng_in, time)
      refl

-- A location packet of the text protocols is accepted exactly if its fix is `A`, its IMEI has 15 digits,
-- its time is there, and its latitude and longitude are numbers within 90 and 180 degrees or `NaN`,
-- which the range tests let pass.
pub validate_normal_packet-IsAccepted :
    (p : TextLocation) → (validate_normal_packet p ≡ none) ↔ IsAccepted p
validate_normal_packet-IsAccepted p = (forth p, back p)
