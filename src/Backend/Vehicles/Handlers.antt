-- ===== src/Backend/Vehicles/Handlers.antt =====
-- The handlers of backend/controllers/vehicleController.js that write, `getVehicleById`, and the routes.
pub mod Refusal
pub mod Isolated
pub mod Served
pub mod Warmed
use fueltracks.Prelude.{
  ℕ, Bool, true, false, ◌&&◌, ◌||◌, not, Option, none, some, List, [], ◌∷◌, ◌++◌, if◌then◌else◌,
}
use fueltracks.Js.Text.{Text, codes, equal}
use fueltracks.Js.Map
use fueltracks.Js.Map.{Map}
use fueltracks.Writer.{Json, missing}
use fueltracks.Backend.Access.{User, authorize, Decision, passed, denied}
use fueltracks.Backend.Sockets.{some_row, spelled, is_truthy, is_superadmin, is_own}
use fueltracks.Backend.Vehicles.{
  FleetRow, Registry, VehicleBody, Outcomes, Reply, refused, answered, answered_points,
  answered_messages, failed, refusal, is_foreign, has_org, find_row, find_by_id, find_by_imei,
  is_found, is_bad_imei, is_blank_name, is_text, bad_request, forbidden_reply, not_found,
  imei_exists, update_where, set_details, or_keep, change_row, warm_hash, forget, valid_groups,
}

-- The handler goes on where no test gives the answer.
unfoldable pub unless : List (Bool × Reply) → Registry → Reply × Registry → Reply × Registry
unless tests reg acted = elim (refusal tests) [ some reply ↦ (reply, reg) | none ↦ acted ]

unfoldable pub target_org : User → Json → Text
target_org user org_id =
    if is_superadmin user && is_truthy org_id then spelled org_id else user.org_id

-- `INSERT` with the tables' constraints: the key, the unique IMEI, the organization.
unfoldable pub can_insert : Registry → FleetRow → Bool
can_insert reg v =
    not (some_row (λ (u : FleetRow). equal u.id v.id || equal u.imei v.imei) reg.vehicles)
    && has_org reg v.org_id

unfoldable pub new_row : Text → User → VehicleBody → FleetRow
new_row new_id user b = record {
  id = new_id;
  org_id = target_org user b.org_id;
  imei = spelled b.imei;
  name = spelled b.name;
  plate = or_keep none b.plate;
  is_active = true;
  details = set_details b.details Map.empty;
}

unfoldable pub insert_row : FleetRow → Registry → Registry
insert_row v reg = record reg {
  vehicles = reg.vehicles ++ v ∷ [];
  latest_states = reg.latest_states ++ v.id ∷ [];
}

unfoldable pub assign_groups : Text → List Text → Registry → Registry
assign_groups id groups reg = record reg { memberships = Map.set reg.memberships id groups }

-- `assignToGroups` where a group is left; it fails also where a group is named twice.
unfoldable pub assign_some : Outcomes → FleetRow → List Text → Registry → Reply × Registry
assign_some o v [] reg =
    if o.assigns then (answered 201 (some v), warm_hash o.redis v reg) else (failed, reg)
assign_some o v (g ∷ groups) reg =
    if o.assigns
    then (answered 201 (some v), warm_hash o.redis v (assign_groups v.id (g ∷ groups) reg))
    else (failed, reg)

unfoldable pub after_create :
    Outcomes → User → FleetRow → Option (List Text) → Registry → Reply × Registry
after_create o user v none reg = (answered 201 (some v), warm_hash o.redis v reg)
after_create o user v (some ids) reg = assign_some o v (valid_groups user reg v.org_id ids) reg

unfoldable pub create_vehicle : Outcomes → Text → User → VehicleBody → Registry → Reply × Registry
create_vehicle o new_id user b reg =
    let v = new_row new_id user b in
    unless
      ((is_bad_imei b.imei, bad_request)
        ∷ (is_blank_name b.name, bad_request)
        ∷ (not (is_text b.name), failed)
        ∷ (not o.reads, failed)
        ∷ (is_found (find_by_imei reg v.imei), imei_exists)
        ∷ (not (o.writes && can_insert reg v), failed)
        ∷ [])
      reg (after_create o user v b.group_ids (insert_row v reg))

unfoldable pub update_rows : Text → VehicleBody → Registry → Registry
update_rows id b reg = record reg { vehicles = update_where id (change_row b) reg.vehicles }

-- `targetOrgId || updated.org_id`
unfoldable pub active_org : Json → FleetRow → Text
active_org org_id v = if is_truthy org_id then spelled org_id else v.org_id

unfoldable pub after_update : Outcomes → User → VehicleBody → FleetRow → Registry → Reply × Registry
after_update o user b v reg = elim b.group_ids [
  | none ↦ (answered 200 (some v), warm_hash o.redis v reg)
  | some ids ↦
      let groups = valid_groups user reg (active_org b.org_id v) ids in
      if o.assigns
      then (answered 200 (some v), warm_hash o.redis v (assign_groups v.id groups reg))
      else (failed, reg)
]

-- `updated` is the row that `findById` has found, changed.
unfoldable pub act_update :
    Outcomes → User → VehicleBody → Option FleetRow → Registry → Reply × Registry
act_update o user b none reg = (not_found, reg)
act_update o user b (some v) reg =
    let u = change_row b v in
    if o.writes && has_org reg u.org_id
    then after_update o user b u (update_rows v.id b reg)
    else (failed, reg)

unfoldable pub update_vehicle : Outcomes → User → Text → VehicleBody → Registry → Reply × Registry
update_vehicle o user id b reg =
    unless
      ((is_blank_name b.name, bad_request)
        ∷ (not (is_text b.name), failed)
        ∷ (not o.reads, failed)
        ∷ (is_foreign user reg id, forbidden_reply)
        ∷ (
          is_truthy b.org_id && not (is_superadmin user) && not (is_own b.org_id user),
          forbidden_reply,
        )
        ∷ [])
      reg (act_update o user b (find_by_id reg id) reg)

unfoldable pub deactivate : FleetRow → FleetRow
deactivate v = record v { is_active = false }

-- `RETURNING id` gives a row without an IMEI.
unfoldable pub returned_imei : Option FleetRow → Option Text
returned_imei v = none

unfoldable pub act_delete : Outcomes → Text → Registry → Reply × Registry
act_delete o id reg =
    let row = find_row (λ (v : FleetRow). equal v.id id) reg.vehicles in
    if not (is_found row) then (not_found, reg) else (
      answered 200 none,
      forget o.redis (returned_imei row)
          (record reg { vehicles = update_where id deactivate reg.vehicles }),
    )

unfoldable pub delete_vehicle : Outcomes → User → Text → Registry → Reply × Registry
delete_vehicle o user id reg =
    unless
      ((not (is_superadmin user) && not o.reads, failed)
        ∷ (is_foreign user reg id, forbidden_reply)
        ∷ (not o.writes, failed)
        ∷ [])
      reg (act_delete o id reg)

-- `existing && existing.id !== id`
unfoldable pub is_other : Option FleetRow → Text → Bool
is_other none id = false
is_other (some v) id = not (equal v.id id)

unfoldable pub with_imei : Text → FleetRow → FleetRow
with_imei imei v = record v { imei = imei }

-- Another row has the IMEI.
unfoldable pub imei_taken : Registry → Text → Text → Bool
imei_taken reg id imei =
    some_row (λ (u : FleetRow). not (equal u.id id) && equal u.imei imei) reg.vehicles

unfoldable pub act_migrate : Text → Text → Registry → Reply × Registry
act_migrate id imei reg =
    let after = record reg { vehicles = update_where id (with_imei imei) reg.vehicles } in
    (answered 200 (find_row (λ (v : FleetRow). equal v.id id) after.vehicles), after)

unfoldable pub migrate_vehicle : Outcomes → User → Text → Json → Registry → Reply × Registry
migrate_vehicle o user id new_imei reg =
    let imei = spelled new_imei in
    unless
      ((is_bad_imei new_imei, bad_request)
        ∷ (not o.reads, failed)
        ∷ (is_foreign user reg id, forbidden_reply)
        ∷ (is_other (find_by_imei reg imei) id, imei_exists)
        ∷ (not o.writes || imei_taken reg id imei, failed)
        ∷ [])
      reg (act_migrate id imei reg)

unfoldable pub get_vehicle_by_id : Outcomes → User → Text → Registry → Reply × Registry
get_vehicle_by_id o user id reg =
    let row = find_by_id reg id in
    unless
      ((not o.reads, failed)
        ∷ (is_foreign user reg id, forbidden_reply)
        ∷ (not (is_found row), not_found)
        ∷ [])
      reg (answered 200 row, reg)

-- `getVehicleHistory`, `getVehicleRoute`, `getVehicleReport` and `getVehicleAlerts`
unfoldable pub get_vehicle_points : Outcomes → User → Text → Registry → Reply × Registry
get_vehicle_points o user id reg =
    unless ((not o.reads, failed) ∷ (is_foreign user reg id, forbidden_reply) ∷ []) reg
      (answered_points id, reg)

unfoldable pub messages_of : Option FleetRow → Reply
messages_of none = refused 404 (codes "NOT_FOUND")
messages_of (some v) = elim v.imei [
  | [] ↦ refused 404 (codes "NOT_FOUND")
  | c ∷ s ↦ answered_messages v.imei
]

unfoldable pub get_vehicle_messages : Outcomes → User → Text → Registry → Reply × Registry
get_vehicle_messages o user id reg =
    unless ((not o.reads, failed) ∷ (is_foreign user reg id, forbidden_reply) ∷ []) reg
      (messages_of (find_by_id reg id), reg)

pub data VehicleRequest : Type 0 where
  get_request points_request messages_request delete_request : Text → VehicleRequest
  create_request : VehicleBody → VehicleRequest
  update_request : Text → VehicleBody → VehicleRequest
  migrate_request : Text → Json → VehicleRequest

unfoldable pub allowed_roles : VehicleRequest → Option (List Text)
allowed_roles (get_request id) = none
allowed_roles (points_request id) = none
allowed_roles (messages_request id) = none
allowed_roles (delete_request id) = some (codes "superadmin" ∷ [])
allowed_roles _ = some (codes "superadmin" ∷ codes "dealer" ∷ [])

unfoldable pub run_handler : Outcomes → Text → User → VehicleRequest → Registry → Reply × Registry
run_handler o new_id user (get_request id) reg = get_vehicle_by_id o user id reg
run_handler o new_id user (points_request id) reg = get_vehicle_points o user id reg
run_handler o new_id user (messages_request id) reg = get_vehicle_messages o user id reg
run_handler o new_id user (delete_request id) reg = delete_vehicle o user id reg
run_handler o new_id user (create_request b) reg = create_vehicle o new_id user b reg
run_handler o new_id user (update_request id b) reg = update_vehicle o user id b reg
run_handler o new_id user (migrate_request id imei) reg = migrate_vehicle o user id imei reg

unfoldable pub is_authorized : Option (List Text) → User → Bool
is_authorized none user = true
is_authorized (some roles) user = elim (authorize roles (some user)) [
  | passed u ↦ true
  | denied reason ↦ false
]

-- The route, for a user that `authenticate` has let pass.
unfoldable pub serve : Outcomes → Text → User → VehicleRequest → Registry → Reply × Registry
serve o new_id user q reg =
    unless ((not (is_authorized (allowed_roles q) user), forbidden_reply) ∷ []) reg
      (run_handler o new_id user q reg)
