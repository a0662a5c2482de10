-- ===== src/Backend/Vehicles.antt =====
-- backend/controllers/vehicleController.js with the statements of backend/models/vehicleModel.js that
-- it runs and the routes of backend/routes/vehicleRoutes.js: a request from its guards to its answer.
pub mod Handlers
use fueltracks.Prelude.{
  ℕ, Bool, true, false, ◌&&◌, ◌||◌, not, Option, none, some, List, [], ◌∷◌, ◌++◌, map,
  if◌then◌else◌,
}
use fueltracks.Js.Text.{Text, codes, equal}
use fueltracks.Js.Strings.{trim_start}
use fueltracks.Js.Map
use fueltracks.Js.Map.{Map}
use fueltracks.Ascii.Validator.{has_15_digits}
use fueltracks.Writer.{Json, missing, null, text, Vehicle}
use fueltracks.Writer.Vehicles.{Hash, or_empty}
use fueltracks.Backend.Access.{User}
use fueltracks.Backend.Location.Entry.{Cache, invalidate_imei}
use fueltracks.Backend.Sockets.{
  VehicleRow, OrgRow, Database, some_row, belongs_to_org, spelled, is_truthy, is_superadmin, is_own,
}

-- A row of `vehicles`; `details` are the columns that no handler reads.
pub record FleetRow : Type 0 where
  pub id : Text
  pub org_id : Text
  pub imei : Text
  pub name : Text
  pub plate : Option Text
  pub is_active : Bool
  pub details : Map Json

-- The tables (of `vehicle_latest_state` the ids), and the two caches of an IMEI's vehicle: the hashes in Redis and the process's own.
pub record Registry : Type 0 where
  pub vehicles : List FleetRow
  pub latest_states : List Text
  pub organizations : List OrgRow
  pub groups : List VehicleRow
  pub memberships : Map (List Text)
  pub hashes : Map Hash
  pub cache : Cache

-- The body of a request; a field is `none` where it is `undefined`.
pub record VehicleBody : Type 0 where
  pub imei : Json
  pub name : Json
  pub plate : Option (Option Text)
  pub is_active : Option Bool
  pub org_id : Json
  pub group_ids : Option (List Text)
  pub details : List (Text × Json)

-- How the calls end, but for the constraints of the tables: the queries before the first statement
-- that writes, that statement, the assignment to the groups, Redis.
pub record Outcomes : Type 0 where
  pub reads : Bool
  pub writes : Bool
  pub assigns : Bool
  pub redis : Bool

-- A status with an error code, a status with the row, what the queries give for the vehicle of an id,
-- or for an IMEI, or `next(err)`.
pub data Reply : Type 0 where
  refused : ℕ → Text → Reply
  answered : ℕ → Option FleetRow → Reply
  answered_points answered_messages : Text → Reply
  failed : Reply

-- The early returns: the first test that holds gives the answer.
unfoldable pub refusal : List (Bool × Reply) → Option Reply
refusal [] = none
refusal ((b, reply) ∷ tests) = let later = refusal tests in if b then some reply else later

unfoldable pub owner_of : FleetRow → VehicleRow
owner_of v = record { id = v.id; org_id = v.org_id }

-- The tables as `belongsToOrg` reads them.
unfoldable pub ownership : Registry → Database
unfolding owner_of
ownership reg = record { vehicles = map owner_of reg.vehicles; organizations = reg.organizations }

-- `GroupModel.belongsToOrg`
unfoldable pub group_belongs : Registry → Text → Text → Bool
group_belongs reg group_id org_id =
    belongs_to_org (record { vehicles = reg.groups; organizations = reg.organizations }) group_id
      org_id

-- `role !== 'superadmin'` and `!belongs`
unfoldable pub is_foreign : User → Registry → Text → Bool
is_foreign user reg id =
    not (is_superadmin user) && not (belongs_to_org (ownership reg) id user.org_id)

unfoldable pub has_org : Registry → Text → Bool
has_org reg org_id = some_row (λ (o : OrgRow). equal o.id org_id) reg.organizations

unfoldable pub find_row : (FleetRow → Bool) → List FleetRow → Option FleetRow
find_row test [] = none
find_row test (v ∷ vehicles) =
    let later = find_row test vehicles in if test v then some v else later

-- `findById` and `findByImei`, which join the organization.
unfoldable pub find_by_id : Registry → Text → Option FleetRow
find_by_id reg id = find_row (λ (v : FleetRow). equal v.id id && has_org reg v.org_id) reg.vehicles

unfoldable pub find_by_imei : Registry → Text → Option FleetRow
find_by_imei reg imei =
    find_row (λ (v : FleetRow). equal v.imei imei && has_org reg v.org_id) reg.vehicles

unfoldable pub is_found : Option FleetRow → Bool
is_found none = false
is_found (some v) = true

-- `!imei || !/^\d{15}$/.test(imei)`
unfoldable pub is_bad_imei : Json → Bool
is_bad_imei imei = not (is_truthy imei) || not (has_15_digits (spelled imei))

-- `!name || name.trim() === ''`, where only a text can be trimmed
unfoldable pub is_blank_name : Json → Bool
is_blank_name (text t) = equal (trim_start t) []
is_blank_name name = not (is_truthy name)

unfoldable pub is_text : Json → Bool
is_text (text t) = true
is_text _ = false

abbrev pub bad_request : Reply
bad_request = refused 400 (codes "VALIDATION_ERROR")

abbrev pub forbidden_reply : Reply
forbidden_reply = refused 403 (codes "FORBIDDEN")

abbrev pub not_found : Reply
not_found = refused 404 (codes "VEHICLE_NOT_FOUND")

abbrev pub imei_exists : Reply
imei_exists = refused 409 (codes "IMEI_ALREADY_EXISTS")

-- `UPDATE vehicles SET … WHERE id = $1`
unfoldable pub update_where : Text → (FleetRow → FleetRow) → List FleetRow → List FleetRow
update_where id change [] = []
update_where id change (v ∷ vehicles) =
    let rest = update_where id change vehicles in
    if equal v.id id then change v ∷ rest else v ∷ rest

unfoldable pub set_details : List (Text × Json) → Map Json → Map Json
set_details [] details = details
set_details ((column, v) ∷ given) details = set_details given (Map.set details column v)

unfoldable pub or_keep {ℓ} : {A : Type ℓ} → A → Option A → A
or_keep old none = old
or_keep old (some new) = new

unfoldable pub org_or_keep : Text → Json → Text
org_or_keep old missing = old
org_or_keep old org_id = spelled org_id

unfoldable pub change_row : VehicleBody → FleetRow → FleetRow
change_row b v = record v {
  name = spelled b.name;
  plate = or_keep v.plate b.plate;
  is_active = or_keep v.is_active b.is_active;
  org_id = org_or_keep v.org_id b.org_id;
  details = set_details b.details v.details;
}

-- `vehicle:imei:…` as the controller writes it
unfoldable pub hash_of : FleetRow → Hash
hash_of v = record { id = v.id; org_id = v.org_id; name = v.name; plate = or_empty v.plate }

unfoldable pub warm_hash : Bool → FleetRow → Registry → Registry
warm_hash false v reg = reg
warm_hash true v reg = record reg {
  hashes = Map.set reg.hashes v.imei (hash_of v);
  cache = invalidate_imei v.imei reg.cache;
}

-- `redis.del` and `invalidateImei`, where the deleted row has an IMEI.
unfoldable pub forget : Bool → Option Text → Registry → Registry
forget true (some imei) reg = record reg {
  hashes = Map.delete reg.hashes imei;
  cache = invalidate_imei imei reg.cache;
}
forget _ _ reg = reg

-- The groups that are taken: all for a superadmin, else those of the organization.
unfoldable pub valid_groups : User → Registry → Text → List Text → List Text
valid_groups user reg org_id [] = []
valid_groups user reg org_id (g ∷ ids) =
    let rest = valid_groups user reg org_id ids in
    if is_superadmin user || group_belongs reg g org_id then g ∷ rest else rest
