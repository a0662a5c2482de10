-- ===== src/Backend/Sql.antt =====
-- The statements that backend/models builds: rows of placeholders for many rows at once
-- (gpsModel.js) and assignments for the fields that are given (geofenceModel.js, routeModel.js). The
-- values are bound to the placeholders by their number, from 1.
pub mod Bound
pub mod Assigned
pub mod Updates
use fueltracks.Prelude.{
  ℕ, zero, suc, ◌+◌, ◌-◌, Option, none, some, List, [], ◌∷◌, ◌++◌, map, length,
}
use fueltracks.Js.Text.{Text, codes, decimal}
use fueltracks.Writer.{Json, text, boolean, Point, LatestState}

-- `n` numbers from `p` on
unfoldable pub numbers : ℕ → ℕ → List ℕ
numbers p zero = []
numbers p (suc n) = p ∷ numbers (p + 1) n

-- `$p,$p+1,…`
unfoldable pub dollars : List ℕ → Text
dollars [] = []
dollars (p ∷ []) = codes "$" ++ decimal p
dollars (p ∷ q ∷ ps) = codes "$" ++ decimal p ++ codes "," ++ dollars (q ∷ ps)

unfoldable pub row_text : List ℕ → Text
row_text ps = codes "(" ++ dollars ps ++ codes ")"

-- The loop over the rows: the numbers of each row, and all values.
unfoldable pub number_rows {ℓ} : {A : Type ℓ} → ℕ → (A → List Json) → ℕ → List A → List (List ℕ)
number_rows width fields p [] = []
number_rows width fields p (a ∷ rows) = numbers p width ∷ number_rows width fields (p + width) rows

unfoldable pub bind_rows {ℓ} : {A : Type ℓ} → (A → List Json) → List A → List Json
bind_rows fields [] = []
bind_rows fields (a ∷ rows) = fields a ++ bind_rows fields rows

unfoldable pub point_fields : Point → List Json
point_fields pt =
    text pt.vehicle_id
    ∷ pt.lat
    ∷ pt.lng
    ∷ pt.speed
    ∷ pt.direction
    ∷ pt.odometer
    ∷ pt.fuel
    ∷ pt.ignition
    ∷ pt.satellites
    ∷ pt.gsm_signal
    ∷ pt.battery
    ∷ pt.voltage
    ∷ boolean pt.is_live
    ∷ pt.device_time
    ∷ []

unfoldable pub state_fields : LatestState → List Json
state_fields u =
    text u.vehicle_id
    ∷ u.lat
    ∷ u.lng
    ∷ u.speed
    ∷ u.direction
    ∷ u.fuel
    ∷ u.ignition
    ∷ u.voltage
    ∷ u.odometer
    ∷ u.satellites
    ∷ u.gsm_signal
    ∷ []

-- `ph.replace(/^./, '(')`
unfoldable pub replace_first : Text → Text
replace_first [] = []
replace_first (c ∷ s) = codes "(" ++ s

-- `ph.replace(/.$/, ',TRUE,NOW())')`
unfoldable pub replace_last : Text → Text
replace_last [] = []
replace_last (c ∷ []) = codes ",TRUE,NOW())"
replace_last (c ∷ d ∷ s) = c ∷ replace_last (d ∷ s)

-- The rows of VALUES and the values, or one row alone, or nothing to do.
pub data Batch (A : Type 0) : Type 0 where
  nothing : Batch A
  single : A → Batch A
  many : List Text → List Json → Batch A

unfoldable pub save_points_batch : List Point → Batch Point
save_points_batch [] = nothing
save_points_batch (p ∷ []) = single p
save_points_batch (p ∷ q ∷ points) =
    many (map row_text (number_rows 14 point_fields 1 (p ∷ q ∷ points)))
      (bind_rows point_fields (p ∷ q ∷ points))

unfoldable pub update_latest_states_batch : List LatestState → Batch LatestState
update_latest_states_batch [] = nothing
update_latest_states_batch (u ∷ []) = single u
update_latest_states_batch (u ∷ v ∷ updates) =
    many
      (map (λ (ps : List ℕ). replace_last (replace_first (row_text ps)))
        (number_rows 11 state_fields 1 (u ∷ v ∷ updates)))
      (bind_rows state_fields (u ∷ v ∷ updates))

-- `fields`, `values` and `idx` of an update; an assignment `column = $number`.
pub record Assignment : Type 0 where
  pub column : Text
  pub number : ℕ

pub record Builder : Type 0 where
  pub fields : List Assignment
  pub values : List Json
  pub idx : ℕ

-- `if (value !== undefined) { fields.push(…); values.push(value); }`
unfoldable pub assign : Text → Option Json → Builder → Builder
assign column none b = b
assign column (some v) b = record {
  fields = b.fields ++ record { column = column; number = b.idx } ∷ [];
  values = b.values ++ v ∷ [];
  idx = b.idx + 1;
}

unfoldable pub assign_all : List (Text × Option Json) → Builder → Builder
assign_all [] b = b
assign_all ((column, v) ∷ given) b = assign_all given (assign column v b)

-- The statement, its values, and the number of the id in its WHERE; without fields there is none.
pub record Update : Type 0 where
  pub set_fields : List Assignment
  pub bound : List Json
  pub where_number : ℕ

unfoldable pub finish : Json → Builder → Option Update
finish id b = elim b.fields [
  | [] ↦ none
  | f ∷ fields ↦
      some (record { set_fields = f ∷ fields; bound = b.values ++ id ∷ []; where_number = b.idx })
]

unfoldable pub build_update : List (Text × Option Json) → Json → Option Update
build_update given id = finish id (assign_all given (record { fields = []; values = []; idx = 1 }))

-- `GeofenceModel.update` and `RouteModel.update`; the coordinates are JSON text.
pub record GeofenceUpdate : Type 0 where
  pub name : Option Json
  pub shape_type : Option Json
  pub coordinates : Option Json
  pub radius : Option Json
  pub center_lat : Option Json
  pub center_lng : Option Json
  pub is_active : Option Json

unfoldable pub update_geofence : Json → GeofenceUpdate → Option Update
update_geofence id u =
    build_update
      ((codes "name", u.name)
        ∷ (codes "type", u.shape_type)
        ∷ (codes "coordinates", u.coordinates)
        ∷ (codes "radius", u.radius)
        ∷ (codes "center_lat", u.center_lat)
        ∷ (codes "center_lng", u.center_lng)
        ∷ (codes "is_active", u.is_active)
        ∷ [])
      id

pub record RouteUpdate : Type 0 where
  pub name : Option Json
  pub coordinates : Option Json
  pub tolerance : Option Json
  pub is_active : Option Json

unfoldable pub update_route : Json → RouteUpdate → Option Update
update_route id u =
    build_update
      ((codes "name", u.name)
        ∷ (codes "coordinates", u.coordinates)
        ∷ (codes "tolerance", u.tolerance)
        ∷ (codes "is_active", u.is_active)
        ∷ [])
      id
