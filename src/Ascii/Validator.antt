-- ===== src/Ascii/Validator.antt =====
-- tcp-server/utils/packetValidator.js.
pub mod Accepted
use fueltracks.Prelude.{
  ℕ, Bool, true, false, ◌&&◌, ◌||◌, not, Option, none, some, List, [], ◌∷◌, length, ltb, ◌==◌,
  if◌then◌else◌,
}
use fueltracks.Prelude.Int.{ℤ, nat_abs}
use fueltracks.Js.Text.{Text, codes, equal}
use fueltracks.Concox.Fields.{all_digits}
use fueltracks.Ascii.{
  Coordinate, null_coordinate, nan, infinite, degrees, TextLocation, TextAlert, Emergency,
}

-- the `reason` of a packet that is not valid
pub data Reason : Type 0 where
  gps_invalid imei_invalid no_coordinates lat_out_of_range lng_out_of_range out_of_range : Reason
  time_invalid no_alert_text : Reason

-- `parsed.imei` and `/^\d{15}$/.test(parsed.imei)`
unfoldable pub has_15_digits : Text → Bool
has_15_digits imei = all_digits imei && length imei == 15

abbrev pub is_null : Coordinate → Bool
is_null null_coordinate = true
is_null nan = false
is_null infinite = false
is_null (degrees z) = false

-- `x < -limit || x > limit`, in units of 1e-7 degrees: `NaN` is not outside any limit, and `null`
-- counts as 0
abbrev pub is_outside : ℕ → Coordinate → Bool
is_outside limit null_coordinate = false
is_outside limit nan = false
is_outside limit infinite = true
is_outside limit (degrees z) = ltb limit (nat_abs z)

abbrev pub is_missing {ℓ} : {A : Type ℓ} → Option A → Bool
is_missing none = true
is_missing (some a) = false

-- `none` is `{ valid: true, reason: null }`.
unfoldable pub validate_normal_packet : TextLocation → Option Reason
validate_normal_packet p =
    if not (equal p.gps_valid (codes "A"))
    then some gps_invalid
    else if not (has_15_digits p.imei)
    then some imei_invalid
    else if is_null p.lat || is_null p.lng
    then some no_coordinates
    else if is_outside 900000000 p.lat
    then some lat_out_of_range
    else if is_outside 1800000000 p.lng
    then some lng_out_of_range
    else if is_missing p.device_time
    then some time_invalid
    else none

abbrev is_blank : Text → Bool
is_blank [] = true
is_blank (c ∷ s) = false

unfoldable pub validate_alert_packet : TextAlert → Option Reason
validate_alert_packet p =
    if not (has_15_digits p.imei)
    then some imei_invalid
    else if is_blank p.alert_text
    then some no_alert_text
    else none

unfoldable pub validate_ais140_emergency_packet : Emergency → Option Reason
validate_ais140_emergency_packet p =
    let l = p.location in
    if not (has_15_digits l.imei)
    then some imei_invalid
    else if is_null l.lat || is_null l.lng
    then some no_coordinates
    else if is_outside 900000000 l.lat || is_outside 1800000000 l.lng
    then some out_of_range
    else if is_blank p.alert_text
    then some no_alert_text
    else none
