-- ===== src/Backend/Vehicles/Handlers/Warmed.antt =====
-- Which requests keep the hashes in Redis, by which an IMEI's vehicle is found, up to date.
use fueltracks.Prelude.{◌≡◌, Bool, true, Option, none, some, [], if◌then◌else◌}
use fueltracks.Js.Text.{Text, equal}
use fueltracks.Js.Map
use fueltracks.Js.Map.{Map}
use fueltracks.Writer.Vehicles.{Hash}
use fueltracks.Backend.Vehicles.{FleetRow, Registry, Outcomes, Reply, answered}
use fueltracks.Backend.Vehicles.Handlers.{VehicleRequest, create_request, update_request}

abbrev plate_or_empty : Option Text → Text
plate_or_empty none = []
plate_or_empty (some plate) = plate

-- What the hash of a row must say.
abbrev pub row_hash : FleetRow → Hash
row_hash v = record { id = v.id; org_id = v.org_id; name = v.name; plate = plate_or_empty v.plate }

-- The hashes after an answer: as before, but for a row that was written where Redis answers.
abbrev pub hash_after : VehicleRequest → Reply → Bool → Registry → Text → Option Hash
hash_after (create_request b) (answered status (some v)) true reg imei =
    if equal v.imei imei then some (row_hash v) else Map.get reg.hashes imei
hash_after (update_request id b) (answered status (some v)) true reg imei =
    if equal v.imei imei then some (row_hash v) else Map.get reg.hashes imei
hash_after _ _ _ reg imei = Map.get reg.hashes imei

module _ (o : Outcomes) (reg : Registry) (imei : Text) where
  abbrev Right : VehicleRequest → Reply × Registry → Type 0
  Right q (reply, after) = Map.get after.hashes imei ≡ hash_after q reply o.redis reg imei
