-- ===== src/Tests/Sockets.antt =====
-- The theorems on the sockets of the web interface at concrete inputs.
use fueltracks.Prelude.{refl, true, some, none, [], ◌∷◌}
use fueltracks.Js.Text.{Text, codes, equal}
use fueltracks.Writer.{text}
use fueltracks.Backend.Access.{User, Verified, claims}
use fueltracks.Backend.Location.Alerts.{Report}
use fueltracks.Backend.Location.Entry.{emit_to_vehicle}
use fueltracks.Backend.Sockets.{
  Database, ClientSocket, answered, accept, connected, join_vehicle, resume, join_room, hears,
  is_superadmin, belongs_to_org, some_row, is_selected, is_child, is_parent, token_of, by_claims,
}
use fueltracks.Backend.Sockets.System.{
  World, start, handle_event, with_checks, join_vehicle_event, emitted_event, query_ran, resumed,
  changed, Reach, here, next,
}
use fueltracks.Backend.Sockets.Kept.{databases}
use fueltracks.Backend.Sockets.Confined.{Reach-MayHear, MayHear}

abbrev fleet_owner : User
fleet_owner = record {
  user_id = codes "7";
  role = codes "dealer";
  org_id = codes "north";
  org_type = codes "dealer";
}

abbrev admit : Text → Verified
admit token = claims fleet_owner

-- The vehicle belongs to a child of the organization, and is sold later.
abbrev before_sale : Database
before_sale = record {
  vehicles = record { id = codes "v1"; org_id = codes "south" } ∷ [];
  organizations = record { id = codes "south"; parent_id = some (codes "north") } ∷ [];
}

abbrev after_sale : Database
after_sale = record { vehicles = []; organizations = before_sale.organizations }

abbrev opened : ClientSocket
opened = connected fleet_owner

abbrev waiting : ClientSocket
waiting = handle_event (join_vehicle_event (text (codes "v1"))) opened

abbrev asked_world : World
asked_world = record { socket = waiting; database = before_sale; past = [] }

abbrev answered_world : World
answered_world = record asked_world {
  socket = with_checks (answered (codes "v1") true ∷ []) waiting;
}

abbrev joined_world : World
joined_world = record asked_world { socket = resume (codes "v1") true (with_checks [] waiting) }

abbrev sold_world : World
sold_world = record joined_world { database = after_sale; past = before_sale ∷ [] }

abbrev report : Report
report = record {
  imei = codes "1";
  lat = 0;
  lng = 0;
  speed = none;
  ignition = none;
  is_live = true;
}

sale : Reach (start opened before_sale) sold_world
unfolding accept connected join_vehicle handle_event resume join_room start belongs_to_org
    with_checks equal some_row is_selected is_child is_parent
sale =
    next
      (next
        (next (next here (emitted_event (join_vehicle_event (text (codes "v1"))) refl))
          (query_ran (codes "v1") [] [] refl refl))
        (resumed (codes "v1") true [] [] refl refl))
      (changed after_sale refl)

Reach-hears_example :
    MayHear (databases sold_world) (codes "north") (emit_to_vehicle (codes "v1") report)
unfolding accept connected join_vehicle handle_event resume join_room start hears is_superadmin
    with_checks token_of by_claims equal some_row
Reach-hears_example =
    Reach-MayHear admit (some (codes "t")) none opened before_sale refl refl sale
      (emit_to_vehicle (codes "v1") report) refl
