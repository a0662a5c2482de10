-- ===== src/Tests/Sql.antt =====
-- The statements: two positions at once, and an update of a geofence's radius.
use fueltracks.Prelude.{ℕ, ◌*◌, ◌≡◌, Option, none, some, List, [], ◌∷◌, ◌++◌, map, length}
use fueltracks.Js.Text.{Text, codes}
use fueltracks.Writer.{Json, number, Point, LatestState, point_of, state_of}
use fueltracks.Backend.Sql.{
  many, row_text, dollars, point_fields, state_fields, save_points_batch,
  update_latest_states_batch, build_update,
}
use fueltracks.Backend.Sql.Bound.{bound_to, batches-bound}
use fueltracks.Backend.Sql.Assigned.{Says, build_update-Says}
use fueltracks.Tests.Writer.{position, vehicle_seven}

abbrev a_point : Point
a_point = point_of position vehicle_seven

abbrev a_state : LatestState
a_state = state_of position vehicle_seven

batches-bound_example :
    ((rows : List (List ℕ)) × (values : List Json) × (save_points_batch (a_point ∷ a_point ∷ [])
        ≡ many (map row_text rows) values)
      × (map (map (bound_to values)) rows
          ≡ map (λ (pt : Point). map some (point_fields pt)) (a_point ∷ a_point ∷ []))
      × (length values ≡ length (a_point ∷ a_point ∷ []) * 14))
    × ((rows : List (List ℕ)) × (values : List Json) × (update_latest_states_batch
            (a_state ∷ a_state ∷ [])
          ≡ many
              (map (λ (ps : List ℕ). codes "(" ++ (dollars ps ++ codes ",TRUE,NOW())")) rows)
              values)
        × (map (map (bound_to values)) rows
            ≡ map (λ (x : LatestState). map some (state_fields x)) (a_state ∷ a_state ∷ []))
        × (length values ≡ length (a_state ∷ a_state ∷ []) * 11))
batches-bound_example = batches-bound a_point a_point [] a_state a_state []

abbrev radius_only : List (Text × Option Json)
radius_only =
    (codes "name", none) ∷ (codes "radius", some (number 500)) ∷ (codes "is_active", none) ∷ []

build_update-Says_example : Says radius_only (number 9) (build_update radius_only (number 9))
build_update-Says_example = build_update-Says radius_only (number 9)
