-- ===== src/Backend/Location/Polygon/Box.antt =====
-- A point outside the bounding box of a polygon is outside the polygon, and a rectangle holds exactly
-- the points between its sides.
use fueltracks.Prelude.{
  ℕ, ◌+◌, ◌-◌, ◌*◌, ◌≤◌, ◌<◌, ◌≡◌, refl, ap, ◌∙◌, Bool, false, not, ◌&&◌, ◌⊎◌, inl, inr, List, [],
  ◌∷◌, All, leb, ltb, if◌then◌else◌, arith,
}
use fueltracks.Backend.Location.Polygon.{
  Vertex, xor, is_below, intersects, crossings, last, is_point_in_polygon,
}

mul_add : (a b c : ℕ) → a * (b + c) ≡ a * b + a * c
mul_add a b c = grind arith

add_mul : (a b c : ℕ) → (a + b) * c ≡ a * c + b * c
add_mul a b c = grind arith

product_le : (a b c : ℕ) → a ≤ b → a * c ≤ b * c
product_le a b c h = grind arith

-- The comparison multiplied out, with `u` from the one end to the longitude and `v` to the other.
above_ends : (lat x y u d : ℕ) → u ≤ d → x ≤ lat → y ≤ lat → y * u + x * d ≤ lat * d + x * u
above_ends lat x y u d w h k =
    let v = d - u in
    let split : (c : ℕ) → c * d ≡ c * u + c * v =
      λ c. ap (λ (e : ℕ). c * e) (omega arith) ∙ mul_add c u v in
    omega (arith, product_le x lat v h, product_le y lat u k, split x, split lat)

below_ends : (lat x y u d : ℕ) → u ≤ d → 0 < d → lat < x → lat < y → lat * d + x * u < y * u + x * d
below_ends lat x y u d w pos h k =
    let v = d - u in
    let split : (c : ℕ) → c * d ≡ c * u + c * v =
      λ c. ap (λ (e : ℕ). c * e) (omega arith) ∙ mul_add c u v in
    omega (
      arith,
      product_le (lat + 1) x v (omega arith),
      product_le (lat + 1) y u (omega arith),
      split x,
      split lat,
      add_mul lat 1 u,
      add_mul lat 1 v,
    )

-- The longitude is west of both ends, or not west of any: no edge is crossed.
west-intersects :
    (lat lng : ℕ) (i j : Vertex) → lng < i.lng → lng < j.lng → intersects lat lng i j ≡ false
unfolding intersects
west-intersects lat lng i j h k = ground arith

east-intersects :
    (lat lng : ℕ) (i j : Vertex) → i.lng ≤ lng → j.lng ≤ lng → intersects lat lng i j ≡ false
unfolding intersects
east-intersects lat lng i j h k = ground arith

north-intersects :
    (lat lng : ℕ) (i j : Vertex) → i.lat ≤ lat → j.lat ≤ lat → intersects lat lng i j ≡ false
unfolding intersects is_below
north-intersects lat lng i j h k = ground (
  arith,
  above_ends lat i.lat j.lat (lng - i.lng) (j.lng - i.lng),
  above_ends lat i.lat j.lat (i.lng - lng) (i.lng - j.lng),
)

-- South of both ends an edge is crossed exactly if its ends lie on the two sides of the longitude.
south-intersects :
    (lat lng : ℕ) (i j : Vertex)
    → lat < i.lat
    → lat < j.lat
    → intersects lat lng i j ≡ xor (ltb lng i.lng) (ltb lng j.lng)
unfolding intersects is_below
south-intersects lat lng i j h k = ground (
  arith,
  below_ends lat i.lat j.lat (lng - i.lng) (j.lng - i.lng),
  below_ends lat i.lat j.lat (i.lng - lng) (i.lng - j.lng),
)

last_holds :
    (P : Vertex → Type 0) (v : Vertex) (polygon : List Vertex)
    → P v
    → All P polygon
    → P (last v polygon)
unfolding last
last_holds P v [] h hs = h
last_holds P v (w ∷ polygon) h (k, ks) = last_holds P w polygon k ks

module _ (lat lng : ℕ) where
  -- No edge is crossed.
  Uncrossed : Vertex → List Vertex → Type 0
  Uncrossed j [] = Unit {0}
  Uncrossed j (i ∷ polygon) = (intersects lat lng i j ≡ false) × Uncrossed i polygon

  crossings-Uncrossed :
      (inside : Bool) (j : Vertex) (polygon : List Vertex)
      → Uncrossed j polygon
      → crossings lat lng inside j polygon ≡ inside
  unfolding crossings Uncrossed
  crossings-Uncrossed inside j [] h = refl
  crossings-Uncrossed inside j (i ∷ polygon) (h, hs) =
      rw h (crossings-Uncrossed inside i polygon hs)

  -- what no edge between vertices of a kind crosses
  module _ (P : Vertex → Type 0)
      (none : (i j : Vertex) → P i → P j → intersects lat lng i j ≡ false) where
    Uncrossed-of : (j : Vertex) (polygon : List Vertex) → P j → All P polygon → Uncrossed j polygon
    unfolding Uncrossed
    Uncrossed-of j [] h hs = tt
    Uncrossed-of j (i ∷ polygon) h (k, ks) = (none i j k h, Uncrossed-of i polygon k ks)

    all-outside :
        (polygon : List Vertex) → All P polygon → is_point_in_polygon lat lng polygon ≡ false
    unfolding is_point_in_polygon
    all-outside [] h = refl
    all-outside (v ∷ polygon) (h, hs) =
        crossings-Uncrossed false (last v polygon) (v ∷ polygon)
          (Uncrossed-of (last v polygon) (v ∷ polygon) (last_holds P v polygon h hs) (h, hs))

  -- South of all vertices: the crossings are the changes of side, and there are as many back as forth.
  crossings-south :
      (inside : Bool) (j : Vertex) (polygon : List Vertex)
      → lat < j.lat
      → All (λ (v : Vertex). lat < v.lat) polygon
      → crossings lat lng inside j polygon
        ≡ xor inside (xor (ltb lng j.lng) (ltb lng (last j polygon).lng))
  unfolding crossings last
  crossings-south inside j [] h hs = ground arith
  crossings-south inside j (i ∷ polygon) h (k, ks) = ground (
    arith,
    south-intersects lat lng i j k h,
    crossings-south inside i polygon k ks,
    crossings-south (not inside) i polygon k ks,
  )

  south-outside :
      (polygon : List Vertex)
      → All (λ (v : Vertex). lat < v.lat) polygon
      → is_point_in_polygon lat lng polygon ≡ false
  unfolding is_point_in_polygon last
  south-outside [] h = refl
  south-outside (v ∷ polygon) (h, hs) = ground (
    arith,
    last_holds (λ (x : Vertex). lat < x.lat) v polygon h hs,
    crossings-south false (last v polygon) (v ∷ polygon),
  )

  -- A point that is west of all vertices, or not west of any, not south of any, or south of all, is
  -- outside the polygon, whatever its shape.
  pub outside-box :
      (polygon : List Vertex)
      → All (λ (v : Vertex). lng < v.lng) polygon
        ⊎ All (λ (v : Vertex). v.lng ≤ lng) polygon
        ⊎ All (λ (v : Vertex). v.lat ≤ lat) polygon
        ⊎ All (λ (v : Vertex). lat < v.lat) polygon
      → is_point_in_polygon lat lng polygon ≡ false
  outside-box polygon (inl west) =
      all-outside (λ (v : Vertex). lng < v.lng) (west-intersects lat lng) polygon west
  outside-box polygon (inr (inl east)) =
      all-outside (λ (v : Vertex). v.lng ≤ lng) (east-intersects lat lng) polygon east
  outside-box polygon (inr (inr (inl north))) =
      all-outside (λ (v : Vertex). v.lat ≤ lat) (north-intersects lat lng) polygon north
  outside-box polygon (inr (inr (inr south))) = south-outside polygon south

  -- an edge along a parallel
  level-intersects :
      (x c d : ℕ)
      → intersects lat lng (record { lat = x; lng = c }) (record { lat = x; lng = d })
        ≡ (if ltb lat x then xor (ltb lng c) (ltb lng d) else false)
  level-intersects x c d =
      let i : Vertex = record { lat = x; lng = c } in
      let j : Vertex = record { lat = x; lng = d } in
      ground (arith, north-intersects lat lng i j, south-intersects lat lng i j)

  -- an edge along a meridian
  upright-intersects :
      (c x y : ℕ)
      → intersects lat lng (record { lat = x; lng = c }) (record { lat = y; lng = c }) ≡ false
  unfolding intersects
  upright-intersects c x y = ground arith

abbrev pub rectangle : ℕ → ℕ → ℕ → ℕ → List Vertex
rectangle south north west east =
    record { lat = south; lng = west }
    ∷ record { lat = south; lng = east }
    ∷ record { lat = north; lng = east }
    ∷ record { lat = north; lng = west }
    ∷ []

-- A rectangle along the parallels and meridians holds exactly the points from its southern side up to,
-- but not on, its northern one, and from its western side up to, but not on, its eastern one.
pub rectangle-holds :
    (south north west east lat lng : ℕ)
    → south ≤ north
    → west ≤ east
    → is_point_in_polygon lat lng (rectangle south north west east)
      ≡ (leb south lat && ltb lat north && leb west lng && ltb lng east)
unfolding is_point_in_polygon crossings last
rectangle-holds south north west east lat lng h k = ground (
  arith,
  upright-intersects lat lng west south north,
  level-intersects lat lng south east west,
  upright-intersects lat lng east north south,
  level-intersects lat lng north west east,
)
