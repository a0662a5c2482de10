-- ===== src/Backend/Location/Polygon.antt =====
-- `isPointInPolygon` of backend/subscribers/locationSubscriber.js. Only differences of coordinates
-- count, so latitudes are counted from the south pole and longitudes from the antimeridian; the
-- quotient of the source is compared exactly, multiplied out by the difference of the longitudes.
pub mod Box
use fueltracks.Prelude.{ℕ, ◌+◌, ◌-◌, ◌*◌, Bool, true, false, not, List, [], ◌∷◌, ltb, if◌then◌else◌}

pub record Vertex : Type 0 where
  pub lat : ℕ
  pub lng : ℕ

abbrev pub xor : Bool → Bool → Bool
xor true b = not b
xor false b = b

-- `lat < (xj - xi) * (lng - yi) / (yj - yi) + xi`, for a longitude from one end to the other
unfoldable pub is_below : ℕ → ℕ → Vertex → Vertex → Bool
is_below lat lng i j =
    if ltb i.lng j.lng
    then ltb (lat * (j.lng - i.lng) + i.lat * (lng - i.lng))
        (j.lat * (lng - i.lng) + i.lat * (j.lng - i.lng))
    else ltb (lat * (i.lng - j.lng) + i.lat * (i.lng - lng))
        (j.lat * (i.lng - lng) + i.lat * (i.lng - j.lng))

unfoldable pub intersects : ℕ → ℕ → Vertex → Vertex → Bool
intersects lat lng i j = if xor (ltb lng i.lng) (ltb lng j.lng) then is_below lat lng i j else false

-- The loop, with the vertex before this one.
unfoldable pub crossings : ℕ → ℕ → Bool → Vertex → List Vertex → Bool
crossings lat lng inside j [] = inside
crossings lat lng inside j (i ∷ polygon) =
    crossings lat lng (if intersects lat lng i j then not inside else inside) i polygon

unfoldable pub last : Vertex → List Vertex → Vertex
last v [] = v
last v (w ∷ polygon) = last w polygon

unfoldable pub is_point_in_polygon : ℕ → ℕ → List Vertex → Bool
is_point_in_polygon lat lng [] = false
is_point_in_polygon lat lng (v ∷ polygon) = crossings lat lng false (last v polygon) (v ∷ polygon)
