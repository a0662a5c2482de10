-- ===== src/Writer.antt =====
-- The state of writer/server.js and what its functions do with it between two `await`s.
pub mod Vehicles
pub mod System
pub mod Steps
pub mod Counted
pub mod Balanced
pub mod Settled
pub mod Stuck
use fueltracks.Prelude.{
  ℕ, ◌+◌, Bool, true, false, ◌||◌, Option, none, some, List, [], ◌∷◌, ◌++◌, leb, if◌then◌else◌,
  length,
}
use fueltracks.Js.Text.{Text}

-- A field of the message; `missing` is `undefined`.
pub data Json : Type 0 where
  missing null : Json
  boolean : Bool → Json
  number : ℕ → Json
  negative : ℕ → Json
  text : Text → Json

-- The message on the tracking stream.
pub record Message : Type 0 where
  pub imei : Json
  pub lat : Json
  pub lng : Json
  pub speed : Json
  pub fuel : Json
  pub ignition : Json
  pub voltage : Json
  pub direction : Json
  pub odometer : Json
  pub satellites : Json
  pub gsm_signal : Json
  pub battery : Json
  pub device_time : Json
  pub is_live : Json

-- `JSON.parse`: it throws, gives `null`, of which no field can be read, or gives fields.
pub data Parsed : Type 0 where
  malformed null_value : Parsed
  object : Message → Parsed

pub record Entry : Type 0 where
  pub id : Text
  pub payload : Option Text

pub record Vehicle : Type 0 where
  pub vehicle_id : Text
  pub org_id : Text
  pub name : Option Text
  pub plate : Option Text

-- A row of `gps_points`.
pub record Point : Type 0 where
  pub vehicle_id : Text
  pub lat : Json
  pub lng : Json
  pub speed : Json
  pub direction : Json
  pub odometer : Json
  pub fuel : Json
  pub ignition : Json
  pub satellites : Json
  pub gsm_signal : Json
  pub battery : Json
  pub voltage : Json
  pub is_live : Bool
  pub device_time : Json

-- A row of `vehicle_latest_state`.
pub record LatestState : Type 0 where
  pub vehicle_id : Text
  pub lat : Json
  pub lng : Json
  pub speed : Json
  pub direction : Json
  pub fuel : Json
  pub ignition : Json
  pub voltage : Json
  pub odometer : Json
  pub satellites : Json
  pub gsm_signal : Json

pub record Limits : Type 0 where
  pub batch_max_rows : ℕ
  pub batch_max_ms : ℕ

pub record Writer : Type 0 where
  pub point_buffer : List Point
  pub state_buffer : List LatestState
  pub pending_acks : List Text
  pub last_flush_at : ℕ
  pub received : ℕ
  pub flushed : ℕ
  pub insert_errors : ℕ
  pub batches : ℕ

-- What `flushNow` takes out of the buffers.
pub record Taken : Type 0 where
  pub points : List Point
  pub states : List LatestState
  pub acks : List Text

-- `isLive !== false`
unfoldable pub live : Json → Bool
live (boolean false) = false
live _ = true

unfoldable pub point_of : Message → Vehicle → Point
unfolding live
point_of m v = record {
  vehicle_id = v.vehicle_id;
  lat = m.lat;
  lng = m.lng;
  speed = m.speed;
  direction = m.direction;
  odometer = m.odometer;
  fuel = m.fuel;
  ignition = m.ignition;
  satellites = m.satellites;
  gsm_signal = m.gsm_signal;
  battery = m.battery;
  voltage = m.voltage;
  is_live = live m.is_live;
  device_time = m.device_time;
}

unfoldable pub state_of : Message → Vehicle → LatestState
state_of m v = record {
  vehicle_id = v.vehicle_id;
  lat = m.lat;
  lng = m.lng;
  speed = m.speed;
  direction = m.direction;
  fuel = m.fuel;
  ignition = m.ignition;
  voltage = m.voltage;
  odometer = m.odometer;
  satellites = m.satellites;
  gsm_signal = m.gsm_signal;
}

-- The three pushes.
unfoldable pub buffer_entry : Text → Message → Vehicle → Writer → Writer
buffer_entry id m v w = record w {
  point_buffer = w.point_buffer ++ point_of m v ∷ [];
  state_buffer = w.state_buffer ++ state_of m v ∷ [];
  pending_acks = w.pending_acks ++ id ∷ [];
}

-- `elapsed >= BATCH_MAX_MS`, where the clock may have been set back
unfoldable pub has_elapsed : Limits → ℕ → Writer → Bool
has_elapsed limits now w = leb (w.last_flush_at + limits.batch_max_ms) now

unfoldable pub is_due : Limits → ℕ → Writer → Bool
unfolding has_elapsed
is_due limits now w = leb limits.batch_max_rows (length w.point_buffer) || has_elapsed limits now w

-- Both buffers are empty.
unfoldable pub is_idle : List Point → List LatestState → Bool
is_idle [] [] = true
is_idle _ _ = false

unfoldable pub take_buffers : Writer → Taken
take_buffers w = record { points = w.point_buffer; states = w.state_buffer; acks = w.pending_acks }

unfoldable pub clear_buffers : Writer → Writer
clear_buffers w = record w { point_buffer = []; state_buffer = []; pending_acks = [] }

unfoldable pub points_saved : Taken → Writer → Writer
points_saved t w = record w { flushed = w.flushed + length t.points }

unfoldable pub flush_done : ℕ → Writer → Writer
flush_done now w = record w { batches = w.batches + 1; last_flush_at = now }

-- The rows go back in front of those that came meanwhile.
unfoldable pub requeue : Taken → Writer → Writer
requeue t w = record w {
  insert_errors = w.insert_errors + 1;
  point_buffer = t.points ++ w.point_buffer;
  state_buffer = t.states ++ w.state_buffer;
  pending_acks = t.acks ++ w.pending_acks;
}
