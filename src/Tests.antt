-- ===== src/Tests.antt =====
-- The theorems of the development, applied to concrete devices, frames and events.
pub mod Frames
pub mod Fields
pub mod Devices
pub mod Port
pub mod Ascii
pub mod Limits
pub mod Metrics
pub mod Location
pub mod Sql
pub mod Writer
pub mod Access
pub mod Alerts
pub mod Sockets
pub mod Vehicles
use fueltracks.Prelude.{ℕ, Bool, true, false, Option, none, some, List, [], ◌∷◌, ◌++◌}
use fueltracks.Prelude.Int.{ℤ, pos}
use fueltracks.Js.Buffer.{Bytes}
use fueltracks.Js.Text.{Text, codes}
use fueltracks.Concox.Devices.{Device, Now}
use fueltracks.Concox.Frames.Stream.{Message}

-- a `Date` that parses no text
abbrev pub no_date : Text → Option ℕ
no_date s = none

abbrev pub some_imei : Text
some_imei = codes "865006049210220"

abbrev pub hyderabad : Device
hyderabad = record {
  imei = codes "865006049210220";
  lat = pos 173453780;
  lng = pos 785239230;
  speed = 45;
  ignition = true;
  serial = 7;
  stage = some 2;
  stage_ctr = 2;
}

abbrev pub new_year : Now
new_year = record { year = 2026; month = 1; day = 1; hours = 0; minutes = 0; seconds = 5 }

-- a heartbeat and a location, as messages
abbrev pub two_messages : List Message
two_messages =
    record { protocol = 0x13; content = 0x0a ∷ 0x05 ∷ 0x03 ∷ 0x00 ∷ 0x00 ∷ []; serial = 1 }
    ∷ record { protocol = 0x8a; content = []; serial = 2 }
    ∷ []
