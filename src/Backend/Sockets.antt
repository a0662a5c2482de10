-- ===== src/Backend/Sockets.antt =====
-- backend/sockets/trackingSocket.js: which rooms a client's socket is in, and `belongsToOrg` of
-- backend/models/vehicleModel.js, on which that depends. `jwt.verify` is a parameter.
pub mod System
pub mod Owned
pub mod Allowed
pub mod Kept
pub mod Confined
use fueltracks.Prelude.{
  ℕ, zero, suc, Bool, true, false, ◌&&◌, ◌||◌, not, Option, none, some, List, [], ◌∷◌, ◌++◌,
  if◌then◌else◌,
}
use fueltracks.Js.Text.{Text, codes, equal, decimal}
use fueltracks.Writer.{Json, missing, null, boolean, number, negative, text}
use fueltracks.Backend.Access.{User, Verified, claims, token_expired, invalid_token}
use fueltracks.Backend.Location.Entry.{
  Effect, save_raw, save_point, save_latest, send_alert, emit_to_vehicle, emit_to_org,
}

-- The columns of `vehicles` and `organizations` that `belongsToOrg` reads.
pub record VehicleRow : Type 0 where
  pub id : Text
  pub org_id : Text

pub record OrgRow : Type 0 where
  pub id : Text
  pub parent_id : Option Text

pub record Database : Type 0 where
  pub vehicles : List VehicleRow
  pub organizations : List OrgRow

-- SQL's `=` with a column that may be NULL
unfoldable pub is_parent : Text → Option Text → Bool
is_parent org_id none = false
is_parent org_id (some p) = equal p org_id

-- A row that passes the test is there.
unfoldable pub some_row {ℓ} : {A : Type ℓ} → (A → Bool) → List A → Bool
some_row test [] = false
some_row test (a ∷ rows) = test a || some_row test rows

-- `id IN (SELECT id FROM organizations WHERE parent_id = $2)`
unfoldable pub is_child : List OrgRow → Text → Text → Bool
is_child organizations org_id id =
    some_row (λ (o : OrgRow). equal o.id id && is_parent org_id o.parent_id) organizations

unfoldable pub is_selected : List OrgRow → Text → Text → VehicleRow → Bool
is_selected organizations vehicle_id org_id v =
    equal v.id vehicle_id && (equal v.org_id org_id || is_child organizations org_id v.org_id)

-- `result.rows.length > 0`
unfoldable pub belongs_to_org : Database → Text → Text → Bool
belongs_to_org db vehicle_id org_id =
    some_row (is_selected db.organizations vehicle_id org_id) db.vehicles

-- What a template makes of a value, and whether it counts as true.
unfoldable pub spelled : Json → Text
spelled missing = codes "undefined"
spelled null = codes "null"
spelled (boolean true) = codes "true"
spelled (boolean false) = codes "false"
spelled (number n) = decimal n
spelled (negative n) = codes "-" ++ decimal n
spelled (text t) = t

unfoldable pub is_truthy : Json → Bool
is_truthy missing = false
is_truthy null = false
is_truthy (boolean b) = b
is_truthy (number zero) = false
is_truthy (number (suc n)) = true
is_truthy (negative n) = true
is_truthy (text []) = false
is_truthy (text (c ∷ t)) = true

unfoldable pub org_room : Text → Text
org_room org_id = codes "org:" ++ org_id

unfoldable pub vehicle_room : Text → Text
vehicle_room vehicle_id = codes "vehicle:" ++ vehicle_id

-- A `join:vehicle` that waits for the database, or has its answer.
pub data Check : Type 0 where
  asked : Text → Check
  answered : Text → Bool → Check

pub record ClientSocket : Type 0 where
  pub user : User
  pub rooms : List Text
  pub checks : List Check
  pub sent : List Text

unfoldable pub is_in : Text → List Text → Bool
is_in room = some_row (λ r. equal r room)

-- `socket.join` and `socket.leave`
unfoldable pub join_room : Text → ClientSocket → ClientSocket
unfolding is_in
join_room room s = record s { rooms = if is_in room s.rooms then s.rooms else s.rooms ++ room ∷ [] }

unfoldable pub without_room : Text → List Text → List Text
without_room room [] = []
without_room room (r ∷ rooms) =
    let rest = without_room room rooms in if equal r room then rest else r ∷ rest

unfoldable pub leave_room : Text → ClientSocket → ClientSocket
leave_room room s = record s { rooms = without_room room s.rooms }

unfoldable pub send_error : Text → ClientSocket → ClientSocket
send_error message s = record s { sent = s.sent ++ message ∷ [] }

-- `socket.handshake.auth?.token || socket.handshake.query?.token`
unfoldable pub token_of : Option Text → Option Text → Option Text
token_of (some (c ∷ auth)) query = some (c ∷ auth)
token_of _ (some (c ∷ query)) = some (c ∷ query)
token_of _ _ = none

-- The handler of `connection`.
unfoldable pub connected : User → ClientSocket
unfolding join_room org_room
connected user =
    join_room (org_room user.org_id) (record { user = user; rooms = []; checks = []; sent = [] })

unfoldable pub by_claims : Verified → Option ClientSocket
unfolding connected
by_claims (claims user) = some (connected user)
by_claims token_expired = none
by_claims invalid_token = none

-- `io.use`, then the handler of `connection`; without a socket the client gets an error.
unfoldable pub accept : (Text → Verified) → Option Text → Option Text → Option ClientSocket
accept verify auth query = elim (token_of auth query) [
  | none ↦ none
  | some token ↦ by_claims (verify token)
]

unfoldable pub is_superadmin : User → Bool
is_superadmin user = equal user.role (codes "superadmin")

-- The handlers, on the field of their payload that they read.
unfoldable pub join_vehicle : Json → ClientSocket → ClientSocket
unfolding is_truthy spelled is_superadmin vehicle_room
join_vehicle vehicle_id s =
    if not (is_truthy vehicle_id)
    then s
    else if is_superadmin s.user
    then join_room (vehicle_room (spelled vehicle_id)) s
    else record s { checks = s.checks ++ asked (spelled vehicle_id) ∷ [] }

unfoldable pub leave_vehicle : Json → ClientSocket → ClientSocket
leave_vehicle vehicle_id s =
    if is_truthy vehicle_id then leave_room (vehicle_room (spelled vehicle_id)) s else s

-- `targetOrgId === orgId`
unfoldable pub is_own : Json → User → Bool
is_own (text t) user = equal t user.org_id
is_own _ user = false

unfoldable pub join_org : Json → ClientSocket → ClientSocket
unfolding is_own
join_org target_org_id s =
    if not (is_truthy target_org_id)
    then s
    else if not (is_superadmin s.user) && not (is_own target_org_id s.user)
    then send_error (codes "Access denied to organization updates.") s
    else join_room (org_room (spelled target_org_id)) s

unfoldable pub leave_org : Json → ClientSocket → ClientSocket
leave_org target_org_id s =
    if is_truthy target_org_id then leave_room (org_room (spelled target_org_id)) s else s

-- `join:vehicle` goes on when its answer is there.
unfoldable pub resume : Text → Bool → ClientSocket → ClientSocket
resume vehicle_id false s = send_error (codes "Access denied to vehicle tracking.") s
resume vehicle_id true s = join_room (vehicle_room vehicle_id) s

-- `io.to(room).emit(…)` reaches the socket.
unfoldable pub hears : ClientSocket → Effect → Bool
hears s (emit_to_vehicle vehicle_id r) = is_in (vehicle_room vehicle_id) s.rooms
hears s (emit_to_org org_id r) = is_in (org_room org_id) s.rooms
hears s _ = false
