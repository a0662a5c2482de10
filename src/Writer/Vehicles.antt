-- ===== src/Writer/Vehicles.antt =====
-- `resolveVehicle` of writer/server.js and of the two subscribers: the Redis hash of an IMEI, and the
-- database where the hash is cold.
use fueltracks.Prelude.{Option, none, some, [], ◌∷◌}
use fueltracks.Js.Text.{Text}
use fueltracks.Writer.{Vehicle}

-- The fields that `hgetall` gives; the empty text is a missing field, or a read that failed.
pub record Hash : Type 0 where
  pub id : Text
  pub org_id : Text
  pub name : Text
  pub plate : Text

-- How `VehicleModel.findByImei` ends.
pub data Found : Type 0 where
  vehicle : Vehicle → Found
  no_vehicle db_error : Found

pub data Resolution : Type 0 where
  resolved : Vehicle → Resolution
  unregistered thrown : Resolution

-- `text || null`
unfoldable pub or_null : Text → Option Text
or_null [] = none
or_null (c ∷ s) = some (c ∷ s)

unfoldable pub of_hash : Hash → Vehicle
of_hash h = record {
  vehicle_id = h.id;
  org_id = h.org_id;
  name = or_null h.name;
  plate = or_null h.plate;
}

-- `text || ''`
unfoldable pub or_empty : Option Text → Text
or_empty none = []
or_empty (some s) = s

-- The hash that `hset` warms.
unfoldable pub warm : Vehicle → Hash
warm v = record {
  id = v.vehicle_id;
  org_id = v.org_id;
  name = or_empty v.name;
  plate = or_empty v.plate;
}

unfoldable pub of_database : Found → Resolution × Option Hash
of_database (vehicle v) = (resolved v, some (warm v))
of_database no_vehicle = (unregistered, none)
of_database db_error = (thrown, none)

-- The writer's version asks for the id alone; what is written to the hash comes second.
unfoldable pub resolve_vehicle : Hash → Found → Resolution × Option Hash
resolve_vehicle h found = elim h.id [
  | [] ↦ of_database found
  | c ∷ s ↦ (resolved (of_hash h), none)
]
