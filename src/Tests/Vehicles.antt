-- ===== src/Tests/Vehicles.antt =====
-- The theorems on the vehicles' requests: a dealer renames a vehicle of its own, with another dealer's
-- vehicle beside it.
use fueltracks.Prelude.{refl, true, none, [], ◌∷◌}
use fueltracks.Js.Text.{Text, codes, equal}
use fueltracks.Js.Map
use fueltracks.Writer.{missing, text}
use fueltracks.Backend.Access.{User}
use fueltracks.Backend.Sockets.{is_superadmin}
use fueltracks.Backend.Vehicles.{FleetRow, Registry, Outcomes}
use fueltracks.Backend.Vehicles.Handlers.{VehicleRequest, update_request, serve}
use fueltracks.Backend.Vehicles.Handlers.Isolated.{IsIsolated}
use fueltracks.Backend.Vehicles.Handlers.Served.{serve-IsIsolated}

abbrev dealer : User
dealer = record {
  user_id = codes "7";
  role = codes "dealer";
  org_id = codes "north";
  org_type = codes "dealer";
}

abbrev truck : Text → Text → Text → FleetRow
truck id org_id imei = record {
  id = id;
  org_id = org_id;
  imei = imei;
  name = codes "Truck";
  plate = none;
  is_active = true;
  details = Map.empty;
}

abbrev two_dealers : Registry
two_dealers = record {
  vehicles =
      truck (codes "v1") (codes "north") (codes "865006049210220")
      ∷ truck (codes "v2") (codes "south") (codes "865006049210221")
      ∷ [];
  latest_states = codes "v1" ∷ codes "v2" ∷ [];
  organizations =
      record { id = codes "north"; parent_id = none }
      ∷ record { id = codes "south"; parent_id = none }
      ∷ [];
  groups = [];
  memberships = Map.empty;
  hashes = Map.empty;
  cache = Map.empty;
}

abbrev all_well : Outcomes
all_well = record { reads = true; writes = true; assigns = true; redis = true }

abbrev renaming : VehicleRequest
renaming = update_request (codes "v1") (record {
  imei = missing;
  name = text (codes "Lorry");
  plate = none;
  is_active = none;
  org_id = missing;
  group_ids = none;
  details = [];
})

serve-IsIsolated_example :
    IsIsolated dealer two_dealers (serve all_well (codes "v3") dealer renaming two_dealers)
unfolding is_superadmin equal
serve-IsIsolated_example = serve-IsIsolated all_well dealer refl two_dealers (codes "v3") renaming
