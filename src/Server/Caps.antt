-- ===== src/Server/Caps.antt =====
-- The connection caps of tcp-server/server.js: sockets for each port and for each IMEI.
pub mod Laws
use fueltracks.Prelude.{
  ℕ, ◌+◌, ◌-◌, Bool, true, false, ◌&&◌, not, Option, none, some, [], ◌∷◌, leb, ltb, ◌==◌,
  if◌then◌else◌,
}
use fueltracks.Js.Text.{Text}
use fueltracks.Js.Map
use fueltracks.Js.Map.{Map}

-- `PORT_CAP` and `PER_IMEI_CAP`: the environment's numbers or the defaults.
pub record Config : Type 0 where
  pub port_cap : Text → ℕ
  pub per_imei_cap : ℕ

-- `portSocketCount` and `imeiSocketCount`
pub record Counts : Type 0 where
  pub ports : Map ℕ
  pub imeis : Map ℕ

-- `map.get(key) || 0`
unfoldable pub count : Map ℕ → Text → ℕ
count m key = elim (Map.get m key) [ none ↦ 0 | some n ↦ n ]

unfoldable pub try_accept_connection : Config → Counts → Text → Bool × Counts
try_accept_connection config counts protocol =
    let cap = config.port_cap protocol in
    let current = count counts.ports protocol in
    if not (cap == 0) && leb cap current
    then (false, counts)
    else (true, record counts { ports = Map.set counts.ports protocol (current + 1) })

unfoldable pub release_connection : Counts → Text → Counts
release_connection counts protocol =
    let current = count counts.ports protocol in
    if ltb 0 current
    then record counts { ports = Map.set counts.ports protocol (current - 1) }
    else counts

-- the empty text is the `imei` that `if (!imei)` passes over
unfoldable pub track_imei_socket : Config → Counts → Text → Bool × Counts
track_imei_socket config counts [] = (true, counts)
track_imei_socket config counts (c ∷ cs) =
    let n = count counts.imeis (c ∷ cs) + 1 in
    if ltb config.per_imei_cap n
    then (false, counts)
    else (true, record counts { imeis = Map.set counts.imeis (c ∷ cs) n })

-- `n` of the source is one less than the count, so that `n <= 0` is `count <= 1`.
unfoldable pub release_imei_socket : Counts → Text → Counts
release_imei_socket counts [] = counts
release_imei_socket counts (c ∷ cs) =
    let held = count counts.imeis (c ∷ cs) in
    if leb held 1
    then record counts { imeis = Map.delete counts.imeis (c ∷ cs) }
    else record counts { imeis = Map.set counts.imeis (c ∷ cs) (held - 1) }
